-- ===== src/Config.antt =====
-- The configuration: include/config.h and src/config.cc.
pub mod Items
pub mod Parse
pub mod Settings
pub mod Usage
