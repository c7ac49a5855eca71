-- ===== src/Currencies/Huobi.antt =====
-- How Huobi spells currencies and pairs (huobi/currency_utils.py).
pub mod Currencies
pub mod PairFrom
pub mod PairTo
