-- ===== src/Kpm.antt =====
-- The KPM service model: lib/e2sm/include/e2sm_kpm.h and lib/e2sm/src/e2sm_kpm.cc.
pub mod Metrics
pub mod Totals
pub mod Window
pub mod Period
pub mod Report
pub mod Text
pub mod Decode
pub mod Merge
