-- ===== src/Rest/Version.antt =====
-- The version of the program, `RestServer::buildVersionJson` of src/restserver.cc. The numbers
-- are those of include/version.h; the texts that the build writes are a parameter.
use nexran.Base.{ℕ, String, List, [], ◌∷◌}
use nexran.Resource.Writer.{Token, start_object, end_object, str, uint}

pub record Version : Type 0 where
  pub commit : String
  pub tag : String
  pub branch : String
  pub build_timestamp : String

abbrev pub version_string : String
version_string = "0.1.0"

abbrev pub version_major : ℕ
version_major = 0

abbrev pub version_minor : ℕ
version_minor = 1

abbrev pub version_patch : ℕ
version_patch = 0

unfoldable pub build_version_json : Version → List Token
build_version_json v =
    start_object
    ∷ str "version"
    ∷ str version_string
    ∷ str "major"
    ∷ uint version_major
    ∷ str "minor"
    ∷ uint version_minor
    ∷ str "patch"
    ∷ uint version_patch
    ∷ str "commit"
    ∷ str v.commit
    ∷ str "tag"
    ∷ str v.tag
    ∷ str "branch"
    ∷ str v.branch
    ∷ str "buildTimestamp"
    ∷ str v.build_timestamp
    ∷ end_object
    ∷ []
