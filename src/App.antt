-- ===== src/App.antt =====
-- The class `App`: include/nexran.h and src/nexran.cc.
pub mod Types
pub mod Send
pub mod Store
pub mod Bind
pub mod Linked
pub mod Equalize
pub mod Call
pub mod Reach
pub mod Trace
pub mod Group
pub mod Dispatch
pub mod Process
pub mod Rmr
