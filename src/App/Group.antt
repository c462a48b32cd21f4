-- ===== src/App/Group.antt =====
-- `RequestGroup` of include/nexran.h, and what `App::response_handler` of src/nexran.cc answers for a
-- group. No other part of the program makes a group yet.
use nexran.Base.{
  ℕ, suc, ◌+◌, ◌<◌, ◌≡◌, Bool, true, false, not, ◌||◌, [], ◌∷◌, Option, none, some, arith,
  if◌then◌else◌, length, ltb, ◌==◌,
}
use nexran.Base.Int.{ℤ, ◌+ℤ◌, ltb_ℤ, int_key}
use nexran.Base.Map.{Map, find, put, find-put}
use nexran.E2ap.Types.{ControlRequest}

pub data RequestState : Type 0 where
  pending success failure : RequestState

pub record RequestStatus : Type 0 where
  pub req : ControlRequest
  pub state : RequestState

-- `timeout` is a time; the context, which only carries the response, is left out.
pub record RequestGroup : Type 0 where
  pub timeout : ℤ
  pub requests : Map ℤ RequestStatus

unfoldable pub new_group : ℤ → ℤ → RequestGroup
new_group now timeout = record { timeout = now +ℤ timeout; requests = [] }

-- It has no `return`; nothing calls it yet, and it is taken to come back.
unfoldable pub add : ControlRequest → RequestGroup → RequestGroup
add req g = record g {
  requests = put req.instance_id (record { req = req; state = pending }) g.requests;
}

unfoldable pub update : ℤ → RequestState → RequestGroup → RequestGroup
update instance_id state g = elim (find instance_id g.requests) [
  | none ↦ g
  | some s ↦ record g { requests = put instance_id (record s { state = state }) g.requests }
]

-- The counters of `is_done`, each raised where the caller passes it.
pub record Counts : Type 0 where
  pub succeeded : ℕ
  pub failed : ℕ
  pub pending : ℕ

abbrev pub count_one : RequestState → Counts → Counts
count_one pending c = record c { pending = suc c.pending }
count_one success c = record c { succeeded = suc c.succeeded }
count_one failure c = record c { failed = suc c.failed }

abbrev pub is_pending : RequestState → Bool
is_pending pending = true
is_pending _ = false

-- The loop of `is_done`: `ret`, and the counters.
unfoldable pub done_loop : Map ℤ RequestStatus → Bool × Counts → Bool × Counts
done_loop [] st = st
done_loop ((id, s) ∷ m) (ret, c) =
    done_loop m (if is_pending s.state then false else ret, count_one s.state c)

unfoldable pub is_done : RequestGroup → Bool × Counts
unfolding done_loop
is_done g = done_loop g.requests (true, record { succeeded = 0; failed = 0; pending = 0 })

unfoldable pub is_expired : ℤ → RequestGroup → Bool
is_expired now g = ltb_ℤ g.timeout now

-- The code that `response_handler` sends for a group, if it sends one.
unfoldable pub response_code : ℤ → RequestGroup → Option ℕ
unfolding is_done is_expired
response_code now g =
    let (all, c) = is_done g in
    if all || is_expired now g
    then some (if ltb 0 c.pending then 504 else if ltb 0 c.failed then 502 else 200)
    else none

done_loop-counts :
    (m : Map ℤ RequestStatus) (ret : Bool) (c : Counts)
    → let (ret', d) = done_loop m (ret, c) in
      d.succeeded + d.failed + d.pending ≡ length m + (c.succeeded + c.failed + c.pending)
unfolding done_loop
done_loop-counts [] ret c = omega arith
done_loop-counts ((id, s) ∷ m) ret c =
    ground
      (arith, done_loop-counts m (if is_pending s.state then false else ret) (count_one s.state c))

-- While `ret` says that nothing is pending, none is counted.
abbrev Agrees : Bool × Counts → Type 0
Agrees (ret, c) = (ret ≡ not (ltb 0 c.pending))

done_loop-Agrees :
    (m : Map ℤ RequestStatus) (st : Bool × Counts) → Agrees st → Agrees (done_loop m st)
unfolding done_loop
done_loop-Agrees [] st h = h
done_loop-Agrees ((id, s) ∷ m) (ret, c) h =
    done_loop-Agrees m (if is_pending s.state then false else ret, count_one s.state c)
      (ground arith)

-- `is_done` counts every request once, and says that the group is done exactly if none is pending.
pub is_done_lem :
    (g : RequestGroup)
    → let (all, c) = is_done g in
      (c.succeeded + c.failed + c.pending ≡ length g.requests) × (all ≡ not (ltb 0 c.pending))
unfolding is_done
is_done_lem g = (
  ground
      (arith, done_loop-counts g.requests true (record { succeeded = 0; failed = 0; pending = 0 })),
  done_loop-Agrees g.requests (true, record { succeeded = 0; failed = 0; pending = 0 })
      (ground arith),
)

-- A gateway timeout, code 504, is answered only when the group's time is over and a request of it is
-- pending still.
pub response_code-timeout :
    (now : ℤ) (g : RequestGroup)
    → response_code now g ≡ some 504
    → (is_expired now g ≡ true) × (0 < (is_done g).1.pending)
unfolding response_code
response_code-timeout now g h = ground (arith, (is_done_lem g).1)

-- A change of state is seen on the request that it names, and on no other.
pub update-find :
    (id j : ℤ) (state : RequestState) (s : RequestStatus) (g : RequestGroup)
    → find id g.requests ≡ some s
    → find j (update id state g).requests
      ≡ (if id == j then some (record s { state = state }) else find j g.requests)
unfolding update
update-find id j state s g h = ground (arith, find-put id j (record s { state = state }) g.requests)
