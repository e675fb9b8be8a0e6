-- ===== src/Hft.antt =====
-- include/hft_data_structures.h: the containers that the trading engine stands on.
pub mod FixedString
pub mod FlatMap
pub mod MemoryPool
pub mod SpscQueue
pub mod Stats
