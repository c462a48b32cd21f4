-- ===== src/Kpm/Totals.antt =====
-- The running totals of `MetricsIndex`, lib/e2sm/src/e2sm_kpm.cc, and its queue.
use nexran.Base.{ℕ, ◌+◌, ◌%◌, ◌<◌, ◌≡◌, List, [], ◌∷◌, ◌++◌, All, arith, Bool-cases, inl, inr}
use nexran.Base.Int.{ℤ, ◌-ℤ◌, ltb_ℤ, u64_mod}
use nexran.Kpm.Metrics.{
  EntityMetrics, MetricsIndex, new_index, accumulate, release, flush_loop, flush, add, reset,
  get_total_bytes, u64_add, u64_sub,
}

pub sum_of : (EntityMetrics → ℕ) → List EntityMetrics → ℕ
sum_of f [] = 0
sum_of f (m ∷ q) = f m + sum_of f q

sum_of-snoc :
    (f : EntityMetrics → ℕ) (q : List EntityMetrics) (m : EntityMetrics)
    → sum_of f (q ++ m ∷ []) ≡ sum_of f q + f m
unfolding sum_of
sum_of-snoc f [] m = omega arith
sum_of-snoc f (n ∷ q) m = omega (arith, sum_of-snoc f q m)

-- Each summed counter fits its 64-bit word.
pub record Fits (m : EntityMetrics) : Type 0 where
  pub dl_bytes : m.dl_bytes < u64_mod
  pub ul_bytes : m.ul_bytes < u64_mod
  pub dl_prbs : m.dl_prbs < u64_mod
  pub ul_prbs : m.ul_prbs < u64_mod
  pub tx_pkts : m.tx_pkts < u64_mod
  pub tx_errors : m.tx_errors < u64_mod
  pub rx_pkts : m.rx_pkts < u64_mod
  pub rx_errors : m.rx_errors < u64_mod

-- The eight totals are the sums over the queue.
pub record Sums (q : List EntityMetrics) (t : EntityMetrics) : Type 0 where
  pub dl_bytes : t.dl_bytes ≡ sum_of (λ m. m.dl_bytes) q % u64_mod
  pub ul_bytes : t.ul_bytes ≡ sum_of (λ m. m.ul_bytes) q % u64_mod
  pub dl_prbs : t.dl_prbs ≡ sum_of (λ m. m.dl_prbs) q % u64_mod
  pub ul_prbs : t.ul_prbs ≡ sum_of (λ m. m.ul_prbs) q % u64_mod
  pub tx_pkts : t.tx_pkts ≡ sum_of (λ m. m.tx_pkts) q % u64_mod
  pub tx_errors : t.tx_errors ≡ sum_of (λ m. m.tx_errors) q % u64_mod
  pub rx_pkts : t.rx_pkts ≡ sum_of (λ m. m.rx_pkts) q % u64_mod
  pub rx_errors : t.rx_errors ≡ sum_of (λ m. m.rx_errors) q % u64_mod

pub record IsExact (x : MetricsIndex) : Type 0 where
  pub words : All Fits x.queue
  pub sums : Sums x.queue x.totals

word_sub : (a s t : ℕ) → a < u64_mod → t ≡ (a + s) % u64_mod → u64_sub t a ≡ s % u64_mod
word_sub a s t h e = omega arith

word_add : (a s t : ℕ) {r : ℕ} → t ≡ s % u64_mod → r ≡ s + a → u64_add t a ≡ r % u64_mod
word_add a s t e h = rw h (omega arith)

release-Sums :
    (m : EntityMetrics) (q : List EntityMetrics) (t : EntityMetrics)
    → Fits m
    → Sums (m ∷ q) t
    → Sums q (release t m)
unfolding release sum_of
release-Sums m q t w s = record {
  dl_bytes = word_sub m.dl_bytes _ t.dl_bytes w.dl_bytes s.dl_bytes;
  ul_bytes = word_sub m.ul_bytes _ t.ul_bytes w.ul_bytes s.ul_bytes;
  dl_prbs = word_sub m.dl_prbs _ t.dl_prbs w.dl_prbs s.dl_prbs;
  ul_prbs = word_sub m.ul_prbs _ t.ul_prbs w.ul_prbs s.ul_prbs;
  tx_pkts = word_sub m.tx_pkts _ t.tx_pkts w.tx_pkts s.tx_pkts;
  tx_errors = word_sub m.tx_errors _ t.tx_errors w.tx_errors s.tx_errors;
  rx_pkts = word_sub m.rx_pkts _ t.rx_pkts w.rx_pkts s.rx_pkts;
  rx_errors = word_sub m.rx_errors _ t.rx_errors w.rx_errors s.rx_errors;
}

accumulate-Sums :
    (m : EntityMetrics) (q : List EntityMetrics) (t : EntityMetrics)
    → Sums q t
    → Sums (q ++ m ∷ []) (accumulate t m)
unfolding accumulate
accumulate-Sums m q t s = record {
  dl_bytes = word_add m.dl_bytes _ t.dl_bytes s.dl_bytes (sum_of-snoc (λ n. n.dl_bytes) q m);
  ul_bytes = word_add m.ul_bytes _ t.ul_bytes s.ul_bytes (sum_of-snoc (λ n. n.ul_bytes) q m);
  dl_prbs = word_add m.dl_prbs _ t.dl_prbs s.dl_prbs (sum_of-snoc (λ n. n.dl_prbs) q m);
  ul_prbs = word_add m.ul_prbs _ t.ul_prbs s.ul_prbs (sum_of-snoc (λ n. n.ul_prbs) q m);
  tx_pkts = word_add m.tx_pkts _ t.tx_pkts s.tx_pkts (sum_of-snoc (λ n. n.tx_pkts) q m);
  tx_errors = word_add m.tx_errors _ t.tx_errors s.tx_errors (sum_of-snoc (λ n. n.tx_errors) q m);
  rx_pkts = word_add m.rx_pkts _ t.rx_pkts s.rx_pkts (sum_of-snoc (λ n. n.rx_pkts) q m);
  rx_errors = word_add m.rx_errors _ t.rx_errors s.rx_errors (sum_of-snoc (λ n. n.rx_errors) q m);
}

flush_loop-Sums :
    (cutoff : ℤ) (q : List EntityMetrics) (t : EntityMetrics)
    → All Fits q
    → Sums q t
    → let r = flush_loop cutoff q t in All Fits r.0 × Sums r.0 r.1
unfolding flush_loop
flush_loop-Sums cutoff [] t w s = (tt, s)
flush_loop-Sums cutoff (m ∷ q) t w s = elim (Bool-cases (ltb_ℤ m.time cutoff)) [
  | inl old ↦ rw old (flush_loop-Sums cutoff q (release t m) w.1 (release-Sums m q t w.0 s))
  | inr new ↦ rw new (w, s)
]

All-snoc :
    (q : List EntityMetrics) (m : EntityMetrics) → All Fits q → Fits m → All Fits (q ++ m ∷ [])
All-snoc [] m ws w = (w, tt)
All-snoc (n ∷ q) m ws w = (ws.0, All-snoc q m ws.1 w)

pub new_index-IsExact : (period : ℤ) → IsExact (new_index period)
unfolding new_index sum_of
new_index-IsExact period = omega arith

pub flush-IsExact : (now : ℤ) (x : MetricsIndex) → IsExact x → IsExact (flush now x)
unfolding flush
flush-IsExact now x v =
    let r = flush_loop-Sums (now -ℤ x.period) x.queue x.totals v.words v.sums in
    record { words = r.0; sums = r.1 }

pub add-IsExact :
    (now : ℤ) (m : EntityMetrics) (x : MetricsIndex) → Fits m → IsExact x → IsExact (add now m x)
unfolding add
add-IsExact now m x w v = flush-IsExact now _ (record {
  words = All-snoc x.queue m v.words w;
  sums = accumulate-Sums m x.queue x.totals v.sums;
})

pub reset-IsExact : (now period : ℤ) (x : MetricsIndex) → IsExact x → IsExact (reset now period x)
unfolding reset
reset-IsExact now period x v = flush-IsExact now _ (record { words = v.words; sums = v.sums })

-- The byte count that throttling compares with its threshold is that of the reports in the queue.
pub get_total_bytes_lem :
    (x : MetricsIndex)
    → IsExact x
    → get_total_bytes x
      ≡ (sum_of (λ m. m.dl_bytes) x.queue + sum_of (λ m. m.ul_bytes) x.queue) % u64_mod
unfolding get_total_bytes
get_total_bytes_lem x v = rw (v.sums.dl_bytes, v.sums.ul_bytes) (omega arith)
