-- ===== src/Kpm/Metrics.antt =====
-- `entity_metrics_t` and `MetricsIndex` of lib/e2sm/include/e2sm_kpm.h and lib/e2sm/src/e2sm_kpm.cc.
-- An `int64_t` counter is its 64-bit pattern, and so is a `double`, which the code only copies.
use nexran.Base.{ℕ, ◌+◌, ◌-◌, ◌%◌, List, [], ◌∷◌, ◌++◌, if◌then◌else◌, length}
use nexran.Base.Int.{ℤ, pos, ◌-ℤ◌, ltb_ℤ, u64_mod}

pub record EntityMetrics : Type 0 where
  pub time : ℤ
  pub dl_bytes : ℕ
  pub ul_bytes : ℕ
  pub dl_prbs : ℕ
  pub ul_prbs : ℕ
  pub tx_pkts : ℕ
  pub tx_errors : ℕ
  pub tx_brate : ℕ
  pub rx_pkts : ℕ
  pub rx_errors : ℕ
  pub rx_brate : ℕ
  pub dl_cqi : ℕ
  pub dl_ri : ℕ
  pub dl_pmi : ℕ
  pub ul_phr : ℕ
  pub ul_sinr : ℕ
  pub ul_mcs : ℕ
  pub ul_samples : ℕ

-- A value with the five leading members given and the rest zero, as the braces in C++ build it.
abbrev pub leading : ℤ → ℕ → ℕ → ℕ → ℕ → EntityMetrics
leading t dlb ulb dlp ulp = record {
  time = t;
  dl_bytes = dlb;
  ul_bytes = ulb;
  dl_prbs = dlp;
  ul_prbs = ulp;
  tx_pkts = 0;
  tx_errors = 0;
  tx_brate = 0;
  rx_pkts = 0;
  rx_errors = 0;
  rx_brate = 0;
  dl_cqi = 0;
  dl_ri = 0;
  dl_pmi = 0;
  ul_phr = 0;
  ul_sinr = 0;
  ul_mcs = 0;
  ul_samples = 0;
}

abbrev pub no_metrics : EntityMetrics
no_metrics = leading (pos 0) 0 0 0 0

pub record MetricsIndex : Type 0 where
  pub period : ℤ
  pub queue : List EntityMetrics
  pub totals : EntityMetrics

unfoldable pub new_index : ℤ → MetricsIndex
new_index period = record { period = period; queue = []; totals = no_metrics }

-- `+=` and `-=` on 64-bit words.
abbrev pub u64_add : ℕ → ℕ → ℕ
u64_add a b = (a + b) % u64_mod

abbrev pub u64_sub : ℕ → ℕ → ℕ
u64_sub a b = (a + u64_mod - b) % u64_mod

-- The eight `+=` of `add`.
unfoldable pub accumulate : EntityMetrics → EntityMetrics → EntityMetrics
accumulate t m = record t {
  dl_bytes = u64_add t.dl_bytes m.dl_bytes;
  ul_bytes = u64_add t.ul_bytes m.ul_bytes;
  dl_prbs = u64_add t.dl_prbs m.dl_prbs;
  ul_prbs = u64_add t.ul_prbs m.ul_prbs;
  tx_pkts = u64_add t.tx_pkts m.tx_pkts;
  tx_errors = u64_add t.tx_errors m.tx_errors;
  rx_pkts = u64_add t.rx_pkts m.rx_pkts;
  rx_errors = u64_add t.rx_errors m.rx_errors;
}

-- The eight `-=` of `flush`.
unfoldable pub release : EntityMetrics → EntityMetrics → EntityMetrics
release t m = record t {
  dl_bytes = u64_sub t.dl_bytes m.dl_bytes;
  ul_bytes = u64_sub t.ul_bytes m.ul_bytes;
  dl_prbs = u64_sub t.dl_prbs m.dl_prbs;
  ul_prbs = u64_sub t.ul_prbs m.ul_prbs;
  tx_pkts = u64_sub t.tx_pkts m.tx_pkts;
  tx_errors = u64_sub t.tx_errors m.tx_errors;
  rx_pkts = u64_sub t.rx_pkts m.rx_pkts;
  rx_errors = u64_sub t.rx_errors m.rx_errors;
}

-- The loop of `flush`: entries older than `cutoff` leave at the front.
unfoldable pub flush_loop :
    ℤ → List EntityMetrics → EntityMetrics → List EntityMetrics × EntityMetrics
flush_loop cutoff [] t = ([], t)
flush_loop cutoff (m ∷ q) t =
    let rest = flush_loop cutoff q (release t m) in if ltb_ℤ m.time cutoff then rest else (m ∷ q, t)

-- `now` is what `std::time` returns.
unfoldable pub flush : ℤ → MetricsIndex → MetricsIndex
unfolding flush_loop
flush now x =
    let (q, t) = flush_loop (now -ℤ x.period) x.queue x.totals in record x { queue = q; totals = t }

unfoldable pub add : ℤ → EntityMetrics → MetricsIndex → MetricsIndex
unfolding flush accumulate
add now m x = flush now (record x { queue = x.queue ++ m ∷ []; totals = accumulate x.totals m })

unfoldable pub reset : ℤ → ℤ → MetricsIndex → MetricsIndex
unfolding flush
reset now period x = flush now (record x { period = period })

unfoldable pub get_total_bytes : MetricsIndex → ℕ
get_total_bytes x = u64_add x.totals.dl_bytes x.totals.ul_bytes

unfoldable pub size : MetricsIndex → ℕ
size x = length x.queue
