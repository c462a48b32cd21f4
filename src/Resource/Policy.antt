-- ===== src/Resource/Policy.antt =====
-- `ProportionalAllocationPolicy` of include/nexran.h and src/policy.cc. It is the only
-- `AllocationPolicy`, so `dynamic_cast` to it always succeeds.
pub mod Throttle
use nexran.Base.{
  String, Bool, true, false, not, ◌&&◌, ◌||◌, List, [], ◌∷◌, if◌then◌else◌, ltb, ◌==◌, string_key,
}
use nexran.Base.Int.{ℤ, pos, ◌+ℤ◌, ltb_ℤ, minus_one, to_u64}
use nexran.Kpm.Metrics.{MetricsIndex, new_index, get_total_bytes}
use nexran.Resource.Json.{Json}
use nexran.Resource.Error.{Result, ok, raise, ◌>>=◌}
use nexran.Resource.Writer.{Token, start_object, end_object, str, int, bool}

pub record Policy : Type 0 where
  pub share : ℤ
  pub auto_equalize : Bool
  pub throttle : Bool
  pub throttle_threshold : ℤ
  pub throttle_period : ℤ
  pub throttle_share : ℤ
  pub is_throttling : Bool
  pub throttle_end : ℤ
  pub throttle_saved_share : ℤ
  pub metrics : MetricsIndex

unfoldable pub new_policy : ℤ → Bool → Bool → ℤ → ℤ → ℤ → Policy
new_policy share auto_equalize throttle threshold period throttle_share = record {
  share = share;
  auto_equalize = auto_equalize;
  throttle = throttle;
  throttle_threshold = threshold;
  throttle_period = period;
  throttle_share = throttle_share;
  is_throttling = false;
  throttle_end = pos 0;
  throttle_saved_share = minus_one;
  metrics = new_index period;
}

-- `new ProportionalAllocationPolicy(512)`, with the constructor's defaults.
unfoldable pub default_policy : Policy
unfolding new_policy
default_policy = new_policy (pos 512) false false minus_one (pos 1800) (pos 128)

abbrev pub share_in_range : ℤ → Bool
share_in_range n = not (ltb_ℤ n (pos 0) || ltb_ℤ (pos 1024) n)

unfoldable pub set_share : ℤ → Policy → Policy × Bool
set_share n p =
    if ltb_ℤ n (pos 0) || ltb_ℤ (pos 1024) n then (p, false) else (record p { share = n }, true)

-- The result is -1, or the share that the caller is to set.
unfoldable pub maybe_end_throttling : ℤ → Policy → Policy × ℤ
maybe_end_throttling now p =
    if not p.is_throttling
    then (p, minus_one)
    else if p.throttle && ltb_ℤ now p.throttle_end
    then (p, minus_one)
    else (
      record p { is_throttling = false; throttle_end = pos 0; throttle_saved_share = minus_one },
      p.throttle_saved_share,
    )

-- `metrics.get_total_bytes() < throttle_threshold` compares words: the threshold is converted.
unfoldable pub maybe_start_throttling : ℤ → Policy → Policy × ℤ
maybe_start_throttling now p =
    if not p.throttle
    then (p, minus_one)
    else if p.is_throttling
    then (p, minus_one)
    else if ltb (get_total_bytes p.metrics) (to_u64 p.throttle_threshold)
    then (p, minus_one)
    else (
      record p {
        throttle_saved_share = p.share;
        is_throttling = true;
        throttle_end = now +ℤ p.throttle_period;
      },
      p.throttle_share,
    )

unfoldable pub serialize : Policy → List Token
serialize p =
    start_object
    ∷ str "type"
    ∷ str "proportional"
    ∷ str "share"
    ∷ int p.share
    ∷ str "auto_equalize"
    ∷ bool p.auto_equalize
    ∷ str "throttle"
    ∷ bool p.throttle
    ∷ str "throttle_threshold"
    ∷ int p.throttle_threshold
    ∷ str "throttle_period"
    ∷ int p.throttle_period
    ∷ str "throttle_share"
    ∷ int p.throttle_share
    ∷ end_object
    ∷ []

module _ (json : Json) where
  open json use {
    Value, is_string, is_int, is_object, is_bool, has_member, member, get_string, get_int, get_bool,
  }

  -- The tests on "type" and "share" that `Slice::create` and `update` make.
  abbrev pub share_is_malformed : Value → Bool
  share_is_malformed obj =
      not (has_member obj "type")
      || not (is_string (member obj "type"))
      || not (get_string (member obj "type") == "proportional")
      || not (has_member obj "share")
      || not (is_int (member obj "share"))
      || ltb_ℤ (get_int (member obj "share")) (pos 0)
      || ltb_ℤ (pos 1024) (get_int (member obj "share"))

  -- An optional member that is there and is no Boolean.
  abbrev pub flag_is_malformed : Value → String → Bool
  flag_is_malformed obj k = has_member obj k && not (is_bool (member obj k))

  abbrev pub flag_or : Value → String → Bool → Bool
  flag_or obj k old = if has_member obj k then get_bool (member obj k) else old

  unfoldable pub update : Value → Policy → Result Policy
  update obj p =
      if not (is_object obj)
      then raise 400 "request is not an object"
      else if share_is_malformed obj
      then raise 400 "malformed allocation_policy property"
      else if flag_is_malformed obj "auto_equalize" || flag_is_malformed obj "throttle"
      then raise 400 "malformed allocation_policy property"
      else ok (record p {
        share = get_int (member obj "share");
        auto_equalize = flag_or obj "auto_equalize" p.auto_equalize;
        throttle = flag_or obj "throttle" p.throttle;
      })
