-- ===== src/Enums.antt =====
-- The enumerations of enums/.
pub mod Currency
pub mod CurrencyPair
pub mod Exchange
pub mod DealType
