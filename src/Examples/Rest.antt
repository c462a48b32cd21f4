-- ===== src/Examples/Rest.antt =====
-- The properties of the REST server at a request for a new slice.
use nexran.Base.{◌≡◌, refl, true, false}
use nexran.Base.Int.{pos}
use nexran.App.Types.{init}
use nexran.App.Reach.{initial, Reach-IsConsistent}
use nexran.Rest.Version.{Version}
use nexran.Rest.Routes.{post_slice}
use nexran.Base.Map.{find}
use nexran.Resource.Slice
use nexran.Resource.Slice.{create_policy}
use nexran.Resource.Validate.{
  validate_json, validate_parts, scan, required_problem, optional_problem, disallowed_problem,
  enum_problem, validate_value, has_type,
}
use nexran.Rest.Reply.{Request, crashes, post_one}
use nexran.Rest.Handle.{handle}
use nexran.Rest.Answers.{IsAnswer, handle-IsAnswer}
use nexran.Examples.{text, no_members, with_member, number, json, platform, thousandths, fast}

abbrev pub version : Version
version = record { commit = ""; tag = ""; branch = ""; build_timestamp = "" }

abbrev pub new_slice : Request platform json version
new_slice = record {
  name = "";
  nodeb_name = "";
  slice_name = fast.name;
  imsi = "";
  body = with_member "name" (text "fast") no_members;
  address = 9;
  garbage = false;
}

-- Its policy has a "throttle" that is no Boolean.
abbrev crashing_slice : Request platform json version
crashing_slice = record new_slice {
  body = with_member "name" (text "fast") (
      with_member "allocation_policy"
        (with_member "type" (text "proportional")
          (with_member "share" (number (pos 300)) (with_member "throttle" (text "yes") no_members)))
        no_members);
}

handle-IsAnswer_example :
    IsAnswer true (init 1) (handle platform json version post_slice crashing_slice (init 1))
handle-IsAnswer_example =
    handle-IsAnswer platform json version post_slice crashing_slice (init 1)
      (Reach-IsConsistent platform json thousandths (init 1) (initial 1))

crashing_slice_crashes :
    (handle platform json version post_slice crashing_slice (init 1)).1 ≡ crashes
unfolding handle post_one Slice.create Slice.schema create_policy validate_json validate_parts scan
    Slice.required Slice.disallowed required_problem optional_problem disallowed_problem
    enum_problem validate_value has_type find
crashing_slice_crashes = refl
