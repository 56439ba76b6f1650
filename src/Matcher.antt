-- ===== src/Matcher.antt =====
-- The matching engine, src/matcher/src/matcher.cpp and its headers.
pub mod Arena
pub mod Ladder
pub mod Report
pub mod Memory
pub mod IntrusiveList
pub mod OrdersData
pub mod OrderBook
pub mod Handlers
pub mod Engine
pub mod Priority
