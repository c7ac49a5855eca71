-- ===== src/Currencies/Kraken.antt =====
-- How Kraken spells currencies and pairs (kraken/currency_utils.py).
pub mod Currencies
pub mod PairFrom
pub mod PairTo
