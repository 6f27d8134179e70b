-- ===== src/Log.antt =====
-- log.cpp, log.h, log/log.h: levels, patterns and their formatters, appenders, loggers, and the
-- logger registry.
pub mod Level
pub mod Pattern
pub mod Format
pub mod Appender
pub mod Logger
pub mod Listener
pub mod Define
pub mod Dump
