-- ===== src/Engine/Accounting.antt =====
-- The operations of src/core/memory_engine.cpp together: what all of them preserve, in any order, and
-- two predicates of that kind, the accounting of the resident bytes and what the retriever has.
pub mod Preserved
pub mod Writes
pub mod Pins
pub mod Batches
pub mod Charging
pub mod Retrieving
pub mod Requests
