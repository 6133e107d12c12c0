-- ===== src/Logger.antt =====
-- The logger (sulog/base_logger.h, sulog/simple_logger.h, sulog/simple_logger.cpp), as it is built on Unix
-- without `_DEBUG`.
pub mod Clock
pub mod Names
pub mod Format
pub mod File
pub mod Handles
