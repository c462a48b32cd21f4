-- ===== src/Config/Settings/Sources.antt =====
-- Which source each setting of src/config.cc has: the descriptor, a variable, or the constructor.
use mathlib.Core.Path.{ap₂}
use nexran.Base.{
  String, Bool, false, ◌&&◌, List, [], ◌∷◌, Option, none, some, if◌then◌else◌, ◌==◌, string_key,
  ◌≡◌, refl, ◌∙◌, ap, arith, Option-cases, inl, inr,
}
use Prim.Native.String.{◌++◌ as append}
use nexran.Base.Map.{find, put, find-put}
use nexran.Base.Text.{to_string}
use nexran.Resource.Json.{Json}
use nexran.Resource.Error.{ok, ◌>>=◌, bind-ok}
use nexran.Config.Settings.{
  ConfigName, rmr_src_id, rmr_port, http_port, config_file, config_str, version, name_key, Settings,
  setting, new_settings, load_settings_from_env, put_env, Documents, port_setting, has_port,
  load_named, load_port, load_ports, load_version, load_messaging, load_document, load_descriptor,
  load_settings, registration,
}

setting-put :
    (k j : ConfigName) (v : String) (m : Settings)
    → setting j (put k v m) ≡ (if k == j then v else setting j m)
unfolding setting
setting-put k j v m = ground (arith, find-put k j v m)

abbrev pub or_else : Option String → String → String
or_else none t = t
or_else (some u) t = u

put_env-setting :
    (o : Option String) (k j : ConfigName) (m : Settings)
    → setting j (put_env o k m) ≡ (if k == j then or_else o (setting j m) else setting j m)
unfolding put_env
put_env-setting none k j m = ground arith
put_env-setting (some v) k j m = setting-put k j v m

constructed :
    (setting rmr_port new_settings ≡ "4560")
    × (setting http_port new_settings ≡ "8000")
    × (setting rmr_src_id new_settings ≡ "")
    × (setting config_file new_settings ≡ "/nexran/etc/nexran-config-file.json")
unfolding setting new_settings
constructed = (refl, refl, refl, refl)

-- What the environment and the constructor say of the settings that matter below.
environment :
    (getenv : String → Option String)
    → let m = load_settings_from_env getenv new_settings in
      (setting rmr_port m ≡ or_else (getenv "RMR_PORT") "4560")
      × (setting http_port m ≡ "8000")
      × (setting rmr_src_id m ≡ or_else (getenv "RMR_SRC_ID") "")
      × (setting config_file m
          ≡ or_else (getenv "CONFIG_FILE") "/nexran/etc/nexran-config-file.json")
unfolding load_settings_from_env
environment getenv = (
  simp (put_env-setting, constructed.0),
  simp (put_env-setting, constructed.1),
  simp (put_env-setting, constructed.2),
  simp (put_env-setting, constructed.3),
)

abbrev pub is_to : Option ConfigName → ConfigName → Bool
is_to none name = false
is_to (some to) name = to == name

module _ (json : Json) (documents : Documents json) where
  open json use {Value, is_object, is_array, has_member, member, get_string, get_int}
  open documents use {read_file, pointer, elements}

  -- Whether an element gives the port of a setting.
  abbrev pub gives_port : ConfigName → Value → Bool
  gives_port name el =
      has_port json documents el
      && is_to (port_setting json documents (get_string (member el "name"))) name

  -- The port that the last such element gives.
  abbrev pub last_port : ConfigName → List Value → Option String
  last_port name [] = none
  last_port name (el ∷ els) = elim (last_port name els) [
    | some t ↦ some t
    | none ↦ if gives_port name el then some (to_string (get_int (member el "port"))) else none
  ]

  load_named-setting :
      (to : Option ConfigName) (name : ConfigName) (port : Value) (m m' : Settings)
      → load_named json documents to port m ≡ ok m'
      → setting name m' ≡ (if is_to to name then to_string (get_int port) else setting name m)
  unfolding load_named
  load_named-setting none name port m m' h = ground (arith, h)
  load_named-setting (some to) name port m m' h =
      ground (arith, h, setting-put to name (to_string (get_int port)) m)

  load_port-setting :
      (name : ConfigName) (el : Value) (m m' : Settings)
      → load_port json documents el m ≡ ok m'
      → setting name m'
        ≡ (if gives_port name el then to_string (get_int (member el "port")) else setting name m)
  unfolding load_port
  load_port-setting name el m m' h =
      let name_of = get_string (member el "name") in
      let lem =
        load_named-setting (port_setting json documents name_of) name (member el "port") m m' in
      ground (arith, h, lem)

  load_ports-setting :
      (name : ConfigName) (els : List Value) (m m' : Settings)
      → load_ports json documents els m ≡ ok m'
      → setting name m' ≡ or_else (last_port name els) (setting name m)
  unfolding load_ports
  load_ports-setting name [] m m' h = ground (arith, h)
  load_ports-setting name (el ∷ els) m m' h =
      let (m1, e, g) =
        bind-ok (load_port json documents el m) (load_ports json documents els) m' h in
      ground (arith, load_port-setting name el m m1 e, load_ports-setting name els m1 m' g)

  load_version-setting :
      (o : Option Value) (name : ConfigName) (m m' : Settings)
      → (version == name) ≡ false
      → load_version json documents o m ≡ ok m'
      → setting name m' ≡ setting name m
  unfolding load_version
  load_version-setting none name m m' n h = ground (arith, h)
  load_version-setting (some v) name m m' n h =
      ground (arith, h, setting-put version name (get_string v) m)

  -- The elements of the descriptor's array of ports.
  abbrev pub port_elements : Value → List Value
  port_elements doc = elim (pointer "/messaging/ports" doc) [ none ↦ [] | some v ↦ elements v ]

  load_messaging-setting :
      (o : Option Value) (name : ConfigName) (m m' : Settings)
      → load_messaging json documents o m ≡ ok m'
      → setting name m'
        ≡ or_else (last_port name (elim o [ none ↦ [] | some v ↦ elements v ])) (setting name m)
  unfolding load_messaging
  load_messaging-setting none name m m' h = ground (arith, h)
  load_messaging-setting (some v) name m m' h =
      ground (arith, h, load_ports-setting name (elements v) m m')

  load_document-setting :
      (doc : Value) (name : ConfigName) (m m' : Settings)
      → (version == name) ≡ false
      → (config_str == name) ≡ false
      → load_document json documents doc m ≡ ok m'
      → setting name m' ≡ or_else (last_port name (port_elements doc)) (setting name m)
  unfolding load_document
  load_document-setting doc name m m' n k h =
      let (m1, e1, h1) =
        bind-ok (load_version json documents (pointer "/version" doc) m)
          (λ m1. load_messaging json documents (pointer "/messaging/ports" doc) m1 >>= λ m2.
            ok (put config_str (documents.to_text doc) m2))
          m' h in
      let (m2, e2, h2) =
        bind-ok (load_messaging json documents (pointer "/messaging/ports" doc) m1)
          (λ m2. ok (put config_str (documents.to_text doc) m2)) m' h1 in
      ground (
        arith,
        h2,
        setting-put config_str name (documents.to_text doc) m2,
        load_messaging-setting (pointer "/messaging/ports" doc) name m1 m2 e2,
        load_version-setting (pointer "/version" doc) name m m1 n e1,
      )

  -- The descriptor, which the file that the environment or the constructor names holds.
  abbrev pub descriptor : (String → Option String) → Option Value
  descriptor getenv =
      read_file (or_else (getenv "CONFIG_FILE") "/nexran/etc/nexran-config-file.json")

  abbrev pub described : ConfigName → Option Value → Option String
  described name none = none
  described name (some doc) = last_port name (port_elements doc)

  load_descriptor-setting :
      (name : ConfigName) (m m' : Settings)
      → (version == name) ≡ false
      → (config_str == name) ≡ false
      → load_descriptor json documents m ≡ ok m'
      → setting name m'
        ≡ or_else (described name (read_file (setting config_file m))) (setting name m)
  unfolding load_descriptor
  load_descriptor-setting name m m' n k h =
      elim (Option-cases (read_file (setting config_file m))) [
        | inl e ↦ rw e (ground (arith, h))
        | inr (doc, e) ↦ rw e (load_document-setting doc name m m' n k (ground (arith, h)))
      ]

  -- No port of the descriptor is the host.
  last_port-rmr_src_id : (els : List Value) → last_port rmr_src_id els ≡ none
  unfolding port_setting
  last_port-rmr_src_id [] = refl
  last_port-rmr_src_id (el ∷ els) = ground (arith, last_port-rmr_src_id els)

  described-rmr_src_id : (o : Option Value) → described rmr_src_id o ≡ none
  described-rmr_src_id none = refl
  described-rmr_src_id (some doc) = last_port-rmr_src_id (port_elements doc)

  -- The endpoints that are registered: the host is the variable RMR_SRC_ID, or nothing if that is not
  -- set; the port is the last that the descriptor gives under the name, then, for RMR alone, the
  -- variable RMR_PORT, and then the constructor's.
  pub load_settings-registration :
      (getenv : String → Option String) (m : Settings)
      → load_settings json documents getenv ≡ ok m
      → let source = or_else (getenv "RMR_SRC_ID") "" in
        let port = λ (name : ConfigName). described name (descriptor getenv) in
        (find "rmrEndpoint" (registration m)
          ≡ some (
              append source
                (append ":" (or_else (port rmr_port) (or_else (getenv "RMR_PORT") "4560")))))
        × (find "httpEndpoint" (registration m)
            ≡ some (append source (append ":" (or_else (port http_port) "8000"))))
  unfolding load_settings registration find
  load_settings-registration getenv m h =
      let m0 = load_settings_from_env getenv new_settings in
      let env = environment getenv in
      let at : (name : ConfigName) (t : String)
          → setting name m0 ≡ t
          → (version == name) ≡ false
          → (config_str == name) ≡ false
          → setting name m ≡ or_else (described name (descriptor getenv)) t =
        λ name t e n k.
          load_descriptor-setting name m0 m n k h
          ∙ ap₂ (λ f. or_else (described name (read_file f))) env.3 e in
      let host =
        at rmr_src_id (or_else (getenv "RMR_SRC_ID") "") env.2 refl refl
        ∙ ap (λ o. or_else o (or_else (getenv "RMR_SRC_ID") ""))
            (described-rmr_src_id (descriptor getenv)) in
      (
        ap₂ (λ s p. some (append s (append ":" p))) host (at rmr_port _ env.0 refl refl),
        ap₂ (λ s p. some (append s (append ":" p))) host (at http_port _ env.1 refl refl),
      )
