-- ===== src/Resource/Policy/Throttle.antt =====
-- Throttling of src/policy.cc.
use nexran.Base.{ℕ, ◌-◌, ◌^◌, ◌≢◌, ◌⊎◌, inr, ◌≤◌, ◌<◌, ◌≡◌, Bool, true, false, arith}
use nexran.Base.Int.{ℤ, pos, negsuc, ◌+ℤ◌, ◌≤ℤ◌, ltb_ℤ, minus_one, to_u64}
use nexran.Kpm.Metrics.{get_total_bytes}
use nexran.Resource.Json.{Json}
use nexran.Resource.Error.{ok, fault}
use nexran.Resource.Policy.{
  Policy, new_policy, set_share, maybe_end_throttling, maybe_start_throttling, update,
}

abbrev pub InRange : ℤ → Type 0
InRange n = (pos 0 ≤ℤ n) × (n ≤ℤ pos 1024)

-- The share is in range; while throttling a share in range is saved, and otherwise nothing is.
pub record IsValid (p : Policy) : Type 0 where
  pub share : InRange p.share
  pub saved : p.is_throttling ≡ true → InRange p.throttle_saved_share
  pub cleared :
      p.is_throttling ≡ false → (p.throttle_saved_share ≡ minus_one) × (p.throttle_end ≡ pos 0)

pub new_policy-IsValid :
    (share : ℤ) (auto_equalize throttle : Bool) (threshold period throttle_share : ℤ)
    → InRange share
    → IsValid (new_policy share auto_equalize throttle threshold period throttle_share)
unfolding new_policy
new_policy-IsValid share auto_equalize throttle threshold period throttle_share h = ground arith

pub set_share-IsValid : (n : ℤ) (p : Policy) → IsValid p → IsValid (set_share n p).0
unfolding set_share
set_share-IsValid n p v = ground arith

pub maybe_end_throttling-IsValid :
    (now : ℤ) (p : Policy) → IsValid p → IsValid (maybe_end_throttling now p).0
unfolding maybe_end_throttling
maybe_end_throttling-IsValid now p v = ground arith

pub maybe_start_throttling-IsValid :
    (now : ℤ) (p : Policy) → IsValid p → IsValid (maybe_start_throttling now p).0
unfolding maybe_start_throttling
maybe_start_throttling-IsValid now p v = ground arith

-- `setShare` takes exactly the shares from 0 to 1024.
pub set_share-InRange :
    (n : ℤ) (p : Policy)
    → ((set_share n p).1 ≡ true → InRange n × ((set_share n p).0 ≡ record p { share = n }))
      × (InRange n → (set_share n p).1 ≡ true)
      × ((set_share n p).1 ≡ false → (set_share n p).0 ≡ p)
unfolding set_share
set_share-InRange n p = ground arith

-- What the policy is while it is throttled: `maybe_start_throttling` and the caller's `setShare`.
unfoldable pub throttled : ℤ → Policy → Policy
unfolding maybe_start_throttling set_share
throttled now p = let (q, share) = maybe_start_throttling now p in (set_share share q).0

-- Throttling starts exactly when it is enabled, not under way, and the bytes of the window reach
-- the threshold as a 64-bit word. It then saves the share and sets the end.
pub maybe_start_throttling_lem :
    (now : ℤ) (p : Policy)
    → p.throttle ≡ true
    → p.is_throttling ≡ false
    → to_u64 p.throttle_threshold ≤ get_total_bytes p.metrics
    → maybe_start_throttling now p ≡ (
      record p {
        throttle_saved_share = p.share;
        is_throttling = true;
        throttle_end = now +ℤ p.throttle_period;
      },
      p.throttle_share,
    )
unfolding maybe_start_throttling
maybe_start_throttling_lem now p on idle enough = ground arith

pub maybe_start_throttling_refused :
    (now : ℤ) (p : Policy)
    → (p.throttle ≡ false)
      ⊎ ((p.is_throttling ≡ true) ⊎ (get_total_bytes p.metrics < to_u64 p.throttle_threshold))
    → maybe_start_throttling now p ≡ (p, minus_one)
unfolding maybe_start_throttling
maybe_start_throttling_refused now p h = ground arith

-- From a policy that starts to be throttled at `now`: until `now + throttle_period` the throttling
-- holds, and from then on it ends and hands back the share that the policy had before.
module _ (now later : ℤ) (p : Policy) (on : p.throttle ≡ true) (idle : p.is_throttling ≡ false)
    (enough : to_u64 p.throttle_threshold ≤ get_total_bytes p.metrics) where
  pub throttling_holds :
      ltb_ℤ later (now +ℤ p.throttle_period) ≡ true
      → maybe_end_throttling later (throttled now p) ≡ (throttled now p, minus_one)
  unfolding maybe_end_throttling throttled
  throttling_holds early = ground arith

  pub throttling_restores :
      InRange p.share
      → ltb_ℤ later (now +ℤ p.throttle_period) ≡ false
      → let (q, share) = maybe_end_throttling later (throttled now p) in
        (share ≡ p.share) × (q.is_throttling ≡ false) × ((set_share share q).0.share ≡ p.share)
  unfolding maybe_end_throttling throttled
  throttling_restores fits over = ground arith

-- With a negative threshold, such as the default -1, the byte count is compared with a number near
-- 2 ^ 64, and throttling does not start before the window holds that many bytes.
pub negative_threshold :
    (now : ℤ) (p : Policy) (n : ℕ)
    → p.throttle_threshold ≡ negsuc n
    → n < 2 ^ 31
    → get_total_bytes p.metrics < 2 ^ 64 - 2 ^ 31
    → maybe_start_throttling now p ≡ (p, minus_one)
negative_threshold now p n e small few =
    maybe_start_throttling_refused now p (inr (inr (rw e (omega arith))))

module _ (json : Json) where
  open json use {Value}

  pub update-ne-fault : (obj : Value) (p : Policy) → update json obj p ≢ fault
  unfolding update
  update-ne-fault obj p = ground arith

  -- A policy update that succeeds keeps the bookkeeping consistent, the share from 0 to 1024
  -- included, and leaves the throttling state, the throttled share and the metrics as they were.
  pub update-IsValid :
      (obj : Value) (p q : Policy)
      → IsValid p
      → update json obj p ≡ ok q
      → IsValid q
        × (q.is_throttling ≡ p.is_throttling)
        × (q.throttle_saved_share ≡ p.throttle_saved_share)
        × (q.throttle_end ≡ p.throttle_end)
        × (q.throttle_share ≡ p.throttle_share)
        × (q.metrics ≡ p.metrics)
  unfolding update
  update-IsValid obj p q v e = ground arith
