-- ===== src/Engine.antt =====
-- src/core/memory_engine.cpp
pub mod Keys
pub mod State
pub mod Codec
pub mod Persist
pub mod Memory
pub mod Write
pub mod Query
pub mod Pin
pub mod Compact
pub mod Warmup
pub mod Stats
pub mod Accounting
pub mod Gc
pub mod Hybrid
