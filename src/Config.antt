-- ===== src/Config.antt =====
-- The configuration of the modules: src/libgsmat/gsm_config.c.
pub mod Commands
pub mod Template
pub mod File
mod Tests
