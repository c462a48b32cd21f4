-- ===== src/Kpm/Window.antt =====
-- Which reports `MetricsIndex` of lib/e2sm/src/e2sm_kpm.cc keeps.
use nexran.Base.{
  ◌≡◌, refl, ap, sym, List, [], ◌∷◌, ◌++◌, All, arith, Bool-cases, inl, inr, if◌then◌else◌,
}
use nexran.Base.Int.{ℤ, ◌-ℤ◌, ◌≤ℤ◌, ltb_ℤ}
use nexran.Kpm.Metrics.{EntityMetrics, MetricsIndex, release, flush_loop, flush, add}

-- The reports that are not older than `cutoff`, wherever they stand.
pub recent : ℤ → List EntityMetrics → List EntityMetrics
recent cutoff [] = []
recent cutoff (m ∷ q) = if ltb_ℤ m.time cutoff then recent cutoff q else m ∷ recent cutoff q

-- Report times do not fall along the queue.
abbrev pub InOrder : List EntityMetrics → Type 0
InOrder [] = Unit {0}
InOrder (m ∷ q) = All (λ n. m.time ≤ℤ n.time) q × InOrder q

recent_lem :
    (cutoff : ℤ) (q : List EntityMetrics) → All (λ n. cutoff ≤ℤ n.time) q → recent cutoff q ≡ q
unfolding recent
recent_lem cutoff [] h = refl
recent_lem cutoff (m ∷ q) h = ground (arith, recent_lem cutoff q)

All-le_trans :
    (a b : ℤ) (q : List EntityMetrics)
    → a ≤ℤ b
    → All (λ n. b ≤ℤ n.time) q
    → All (λ n. a ≤ℤ n.time) q
All-le_trans a b [] h k = tt
All-le_trans a b (m ∷ q) h k = (omega arith, All-le_trans a b q h k.1)

flush_loop-recent :
    (cutoff : ℤ) (q : List EntityMetrics) (t : EntityMetrics)
    → InOrder q
    → (flush_loop cutoff q t).0 ≡ recent cutoff q
unfolding flush_loop recent
flush_loop-recent cutoff [] t h = refl
flush_loop-recent cutoff (m ∷ q) t h = elim (Bool-cases (ltb_ℤ m.time cutoff)) [
  | inl old ↦ rw old (flush_loop-recent cutoff q (release t m) h.1)
  | inr new ↦ rw new (
      ap (λ r. m ∷ r) (sym (recent_lem cutoff q (All-le_trans cutoff m.time q (ground arith) h.0))))
]

-- `flush` keeps the reports of the window and drops all older ones.
pub flush-recent :
    (now : ℤ) (x : MetricsIndex)
    → InOrder x.queue
    → (flush now x).queue ≡ recent (now -ℤ x.period) x.queue
unfolding flush
flush-recent now x h = flush_loop-recent (now -ℤ x.period) x.queue x.totals h

All-snoc_le :
    (a : ℤ) (q : List EntityMetrics) (m : EntityMetrics)
    → All (λ n. a ≤ℤ n.time) q
    → a ≤ℤ m.time
    → All (λ n. a ≤ℤ n.time) (q ++ m ∷ [])
All-snoc_le a [] m h k = (k, tt)
All-snoc_le a (n ∷ q) m h k = (h.0, All-snoc_le a q m h.1 k)

InOrder-snoc :
    (q : List EntityMetrics) (m : EntityMetrics)
    → InOrder q
    → All (λ n. n.time ≤ℤ m.time) q
    → InOrder (q ++ m ∷ [])
InOrder-snoc [] m h k = (tt, tt)
InOrder-snoc (n ∷ q) m h k = (All-snoc_le n.time q m h.0 k.0, InOrder-snoc q m h.1 k.1)

recent-All :
    (P : EntityMetrics → Type 0) (cutoff : ℤ) (q : List EntityMetrics)
    → All P q
    → All P (recent cutoff q)
unfolding recent
recent-All P cutoff [] h = tt
recent-All P cutoff (m ∷ q) h = elim (Bool-cases (ltb_ℤ m.time cutoff)) [
  | inl old ↦ rw old (recent-All P cutoff q h.1)
  | inr new ↦ rw new (h.0, recent-All P cutoff q h.1)
]

recent-InOrder : (cutoff : ℤ) (q : List EntityMetrics) → InOrder q → InOrder (recent cutoff q)
unfolding recent
recent-InOrder cutoff [] h = tt
recent-InOrder cutoff (m ∷ q) h = elim (Bool-cases (ltb_ℤ m.time cutoff)) [
  | inl old ↦ rw old (recent-InOrder cutoff q h.1)
  | inr new ↦ rw new (recent-All (λ n. m.time ≤ℤ n.time) cutoff q h.0, recent-InOrder cutoff q h.1)
]

-- A report that is not older than those before it leaves the queue in order, and the queue is then
-- the window of what was there and the report.
pub add-recent :
    (now : ℤ) (m : EntityMetrics) (x : MetricsIndex)
    → InOrder x.queue
    → All (λ n. n.time ≤ℤ m.time) x.queue
    → ((add now m x).queue ≡ recent (now -ℤ x.period) (x.queue ++ m ∷ []))
      × InOrder (add now m x).queue
unfolding add
add-recent now m x h k =
    let ordered = InOrder-snoc x.queue m h k in
    let e = flush-recent now (record x { queue = x.queue ++ m ∷ []; totals = _ }) ordered in
    (e, rw e (recent-InOrder (now -ℤ x.period) (x.queue ++ m ∷ []) ordered))
