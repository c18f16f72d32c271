-- ===== src/Config.antt =====
-- src/config/config_manager.cpp and src/ratelimit/bandwidth.cpp: the configuration, its limits, its
-- keys and the parsing of values.
pub mod Defs
pub mod Bandwidth
pub mod Parse
pub mod Normalize
pub mod Keys
