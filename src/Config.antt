-- ===== src/Config.antt =====
-- config/config.cpp: configuration variables, their texts, and the registry of all of them.
pub mod Variable
pub mod Cast
pub mod Registry
