-- ===== src/Kpm/Report.antt =====
-- `KpmReport` of lib/e2sm/include/e2sm_kpm.h.
use nexran.Base.{String}
use nexran.Base.Int.{ℤ}
use nexran.Base.Map.{Map}
use nexran.Kpm.Metrics.{EntityMetrics}

pub record KpmReport : Type 0 where
  pub period_ms : ℤ
  pub available_dl_prbs : ℤ
  pub available_ul_prbs : ℤ
  pub active_ues : ℤ
  pub ues : Map ℤ EntityMetrics
  pub slices : Map String EntityMetrics
