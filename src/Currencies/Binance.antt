-- ===== src/Currencies/Binance.antt =====
-- How Binance spells currencies and pairs (binance/currency_utils.py).
pub mod Currencies
pub mod PairFrom
pub mod PairTo
