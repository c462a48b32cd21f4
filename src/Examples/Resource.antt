-- ===== src/Examples/Resource.antt =====
-- The properties of the resources at a policy and at a request body.
use nexran.Base.{◌↔◌, ◌≡◌, refl, true, false, none, arith, string_key}
use nexran.Base.Int.{pos, negsuc, minus_one}
use nexran.Kpm.Metrics.{get_total_bytes}
use nexran.Resource.Schema.{HttpMethod}
use nexran.Resource.Policy.{set_share, maybe_end_throttling, maybe_start_throttling, update}
use nexran.Resource.Policy.Throttle.{
  IsValid, throttled, throttling_restores, negative_threshold, update-IsValid,
}
use nexran.Resource.Slice.{schema}
use nexran.Resource.Validate.{validate_json}
use nexran.Resource.Validate.Acceptable.{IsAcceptable, validate_json-IsAcceptable}
use nexran.Examples.{JsonValue, text, number, flag, no_members, with_member, json, policy}

throttling_restores_example :
    let (q, share) = maybe_end_throttling (pos 160) (throttled (pos 100) policy) in
    (share ≡ pos 512) × (q.is_throttling ≡ false) × ((set_share share q).0.share ≡ pos 512)
unfolding get_total_bytes
throttling_restores_example =
    throttling_restores (pos 100) (pos 160) policy refl refl (ground arith) (ground arith) refl

negative_threshold_example :
    maybe_start_throttling (pos 100) (record policy { throttle_threshold = negsuc 0 })
    ≡ (record policy { throttle_threshold = negsuc 0 }, minus_one)
unfolding get_total_bytes
negative_threshold_example =
    negative_threshold (pos 100) (record policy { throttle_threshold = negsuc 0 }) 0 refl
      (ground arith) (ground arith)

abbrev new_share : JsonValue
new_share =
    with_member "type" (text "proportional")
      (with_member "share" (number (pos 300)) (with_member "auto_equalize" (flag true) no_members))

update-IsValid_example :
    IsValid (record policy { share = pos 300 })
    × (false ≡ false)
    × (negsuc 0 ≡ negsuc 0)
    × (pos 0 ≡ pos 0)
    × (pos 128 ≡ pos 128)
    × (policy.metrics ≡ policy.metrics)
unfolding update
update-IsValid_example =
    update-IsValid json new_share policy (record policy { share = pos 300 }) (ground arith) refl

validate_json-IsAcceptable_example :
    ((validate_json json schema HttpMethod.post new_share none).retval ≡ true)
    ↔ IsAcceptable json schema HttpMethod.post new_share
unfolding schema
validate_json-IsAcceptable_example =
    validate_json-IsAcceptable json schema HttpMethod.post new_share refl
