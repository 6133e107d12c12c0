-- ===== src/IoBuffer.antt =====
-- `io_buffer` (iobuffer/io_buffer.h, iobuffer/io_buffer.cpp): a byte queue with two ends, kept in
-- pages of `DEFAULT_SIZE` bytes. Block has the control block and what every operation calls, Push,
-- Pop and Access the operations; their children and View have the theorems.
pub mod Block
pub mod Push
pub mod Pop
pub mod Access
pub mod View
pub mod Shrink
pub mod Move
