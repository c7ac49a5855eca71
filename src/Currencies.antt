-- ===== src/Currencies.antt =====
-- The tables of names and ids of currencies and pairs.
pub mod Dict
pub mod Split
pub mod PairIds
pub mod PairNames
pub mod CurrencyNames
pub mod Binance
pub mod Bittrex
pub mod Huobi
pub mod Kraken
pub mod Poloniex
pub mod ByExchange
pub mod Check
pub mod PairLaws
pub mod ExchangeLaws
pub mod Spelling
