-- ===== src/Log.antt =====
-- The package log: the loggers of an application and the files they write.
pub mod Monitor
pub mod Parsers
pub mod Logger
mod Tests
