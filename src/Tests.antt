-- ===== src/Tests.antt =====
-- Witnesses: each theorem that has hypotheses or parameters, at an input where they hold.
mod OrderBook
mod Listener
mod Arbitrage
mod Cents
mod Balances
mod Orders
mod Sockets
mod Currencies
mod Parsed
