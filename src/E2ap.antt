-- ===== src/E2ap.antt =====
-- The E2AP request tracker: lib/e2ap/include/e2ap.h and lib/e2ap/src/e2ap.cc.
pub mod Types
pub mod Encode
pub mod State
pub mod Decode
pub mod Handle
