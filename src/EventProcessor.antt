-- ===== src/EventProcessor.antt =====
-- The event loop (io/event_processor.h, io/event_processor.cpp).
pub mod Watch
pub mod Watched
pub mod Tasks
pub mod Events
pub mod Shutdown
pub mod Destroy
