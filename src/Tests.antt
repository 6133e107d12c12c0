-- ===== src/Tests.antt =====
-- Witnesses and runs at concrete inputs.
mod Data
mod Buffer
mod Queue
mod Container
mod Locks
mod Moving
mod Connection
mod Writing
mod Logging
mod Loop
mod Pools
mod Reading
