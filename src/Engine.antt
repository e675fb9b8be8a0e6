-- ===== src/Engine.antt =====
-- src/trading_engine_service.cpp, class TradingEngineService: from an order that was received to the
-- reports that are published. Types holds the state, Text the helpers on texts, Publish the reports,
-- Place, Cancel and Replace the three actions, Parse and Process the way of a message to them, Update
-- and Fills the callbacks.
pub mod Types
pub mod Text
pub mod Dto
pub mod Serialize
pub mod Publisher
pub mod Startup
pub mod Fallback
pub mod Publish
pub mod Place
pub mod Cancel
pub mod Replace
pub mod Parse
pub mod Process
pub mod Update
pub mod Fills
pub mod Answers
pub mod Invariant
mod Tests
