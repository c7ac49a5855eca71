-- ===== src/Currencies/Poloniex.antt =====
-- How Poloniex spells currencies and pairs (poloniex/currency_utils.py).
pub mod Currencies
pub mod PairFrom
pub mod PairTo
