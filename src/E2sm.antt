-- ===== src/E2sm.antt =====
-- The NexRAN service model: lib/e2sm/include/e2sm_nexran.h and lib/e2sm/src/e2sm_nexran.cc.
pub mod Types
pub mod Control
pub mod Status
pub mod Object
