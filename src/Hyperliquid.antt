-- ===== src/Hyperliquid.antt =====
-- src/adapters/hyperliquid_adapter.cpp: the Hyperliquid adapter.
pub mod Text
pub mod Ids
pub mod Dedupe
pub mod Stream
pub mod Updates
pub mod UserFills
pub mod Handler
pub mod Reply
pub mod Price
pub mod Placement
pub mod Batch
pub mod Place
pub mod Cancel
pub mod Query
mod Tests
