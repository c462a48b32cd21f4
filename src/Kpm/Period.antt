-- ===== src/Kpm/Period.antt =====
-- `KpmPeriod` of lib/e2sm/include/e2sm_kpm.h and `kpm_period_to_ms` of lib/e2sm/src/e2sm_kpm.cc.
use nexran.Base.Int.{ℤ, pos}

pub data KpmPeriod : Type 0 where
  ms10 ms20 ms32 ms40 ms60 ms64 ms70 ms80 ms128 ms160 : KpmPeriod
  ms256 ms320 ms512 ms640 ms1024 ms1280 ms2048 ms2560 ms5120 ms10240 : KpmPeriod

unfoldable pub kpm_period_to_ms : KpmPeriod → ℤ
kpm_period_to_ms ms10 = pos 10
kpm_period_to_ms ms20 = pos 20
kpm_period_to_ms ms32 = pos 32
kpm_period_to_ms ms40 = pos 40
kpm_period_to_ms ms60 = pos 60
kpm_period_to_ms ms64 = pos 64
kpm_period_to_ms ms70 = pos 70
kpm_period_to_ms ms80 = pos 80
kpm_period_to_ms ms128 = pos 128
kpm_period_to_ms ms160 = pos 160
kpm_period_to_ms ms256 = pos 256
kpm_period_to_ms ms320 = pos 320
kpm_period_to_ms ms512 = pos 512
kpm_period_to_ms ms640 = pos 640
kpm_period_to_ms ms1024 = pos 1024
kpm_period_to_ms ms1280 = pos 1280
kpm_period_to_ms ms2048 = pos 2048
kpm_period_to_ms ms2560 = pos 2560
kpm_period_to_ms ms5120 = pos 5120
kpm_period_to_ms ms10240 = pos 10240
