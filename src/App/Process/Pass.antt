-- ===== src/App/Process/Pass.antt =====
-- A pass of `App::response_handler` of src/nexran.cc over the groups of requests.
use nexran.Base.{
  ℕ, Bool, true, false, ◌||◌, List, [], ◌∷◌, ◌++◌, Option, none, some, ◌≡◌, refl, ap, ◌∙◌, ◌⊎◌, inl,
  inr, arith, if◌then◌else◌, ltb, All, Option-cases,
}
use nexran.Base.Int.{ℤ, ltb_ℤ}
use nexran.Base.Map.{Map}
use nexran.Resource.Error.{ok, fault}
use nexran.App.Group.{
  RequestGroup, RequestStatus, RequestState, failure, Counts, is_pending, count_one, done_loop,
  is_done, is_done_lem, is_expired, response_code,
}
use nexran.App.Process.{response_pass, visit, next}

abbrev pub is_failure : RequestState → Bool
is_failure failure = true
is_failure _ = false

abbrev pub any_state : (RequestState → Bool) → Map ℤ RequestStatus → Bool
any_state test [] = false
any_state test ((id, s) ∷ m) = test s.state || any_state test m

-- What a group is to be answered: a timeout, code 504, once its time is over with a request pending;
-- with none pending, code 502 if a request failed, and 200 otherwise.
abbrev pub expected_code : ℤ → RequestGroup → Option ℕ
expected_code now g =
    if any_state is_pending g.requests
    then if ltb_ℤ g.timeout now then some 504 else none
    else if any_state is_failure g.requests
    then some 502
    else some 200

done_loop-any :
    (m : Map ℤ RequestStatus) (ret : Bool) (c : Counts)
    → let (ret', d) = done_loop m (ret, c) in
      (ltb 0 d.pending ≡ (any_state is_pending m || ltb 0 c.pending))
      × (ltb 0 d.failed ≡ (any_state is_failure m || ltb 0 c.failed))
unfolding done_loop
done_loop-any [] ret c = (refl, refl)
done_loop-any ((id, s) ∷ m) ret c =
    ground
      (arith, done_loop-any m (if is_pending s.state then false else ret) (count_one s.state c))

response_code-expected : (now : ℤ) (g : RequestGroup) → response_code now g ≡ expected_code now g
unfolding response_code is_done is_expired
response_code-expected now g = ground (
  arith,
  (is_done_lem g).1,
  done_loop-any g.requests true (record { succeeded = 0; failed = 0; pending = 0 }),
)

-- The first group that is to be answered, with those before and after it.
pub record IsFirst (now : ℤ) (groups : List RequestGroup) (code : ℕ) : Type 0 where
  pub before : List RequestGroup
  pub group : RequestGroup
  pub after : List RequestGroup
  pub split : groups ≡ before ++ group ∷ after
  pub waiting : All (λ g. expected_code now g ≡ none) before
  pub answered : expected_code now group ≡ some code

-- A pass leaves the groups as they are if none is to be answered. Otherwise it sends the code of the
-- first group that is, and then crashes on the iterator that the group's erasure made invalid. The code
-- is 504 for a group whose time is over with a request pending, 502 for one with none pending and one
-- failed, and 200 for one with all succeeded.
pub response_pass_lem :
    (now : ℤ) (groups : List RequestGroup)
    → (All (λ g. expected_code now g ≡ none) groups × (response_pass now groups ≡ ([], ok groups)))
      ⊎ ((code : ℕ) × IsFirst now groups code × (response_pass now groups ≡ (code ∷ [], fault)))
unfolding response_pass visit next
response_pass_lem now [] = inl (tt, refl)
response_pass_lem now (g ∷ groups) = elim (Option-cases (expected_code now g)) [
  | inr (code, y) ↦ inr (
    code,
    record { before = []; group = g; after = groups; split = refl; waiting = tt; answered = y },
    ground (arith, response_code-expected now g ∙ y),
  )
  | inl n ↦
      let same : response_code now g ≡ none = response_code-expected now g ∙ n in
      elim (response_pass_lem now groups) [
        | inl (a, q) ↦ inl ((n, a), ground (arith, same, q))
        | inr (code, f, q) ↦ inr (
          code,
          record {
            before = g ∷ f.before;
            group = f.group;
            after = f.after;
            split = ap (λ gs. g ∷ gs) f.split;
            waiting = (n, f.waiting);
            answered = f.answered;
          },
          ground (arith, same, q),
        )
      ]
]
