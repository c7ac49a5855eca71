-- ===== src/Currencies/Bittrex.antt =====
-- How Bittrex spells currencies and pairs (bittrex/currency_utils.py).
pub mod Currencies
pub mod PairFrom
pub mod PairTo
