-- ===== src/Rest.antt =====
-- The northbound interface: src/restserver.cc and include/restserver.h.
pub mod Routes
pub mod Version
pub mod Reply
pub mod Context
pub mod Handlers
pub mod Handle
pub mod Status
pub mod Crashes
pub mod Answers
pub mod Steps
