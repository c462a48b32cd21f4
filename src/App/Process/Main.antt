-- ===== src/App/Process/Main.antt =====
-- `main` of src/main.cc: from the command line, the environment and the descriptor to a process that
-- serves.
use mathlib.Core.Path.{ap₂}
use nexran.Base.{
  ℕ, String, Bool, true, false, not, ◌&&◌, List, [], ◌∷◌, Option, none, some, ◌≡◌, refl, sym, ◌∙◌,
  ap, All, arith, if◌then◌else◌, string_key,
}
use nexran.Base.Int.{ℤ, pos}
use nexran.Base.Map.{find}
use nexran.Resource.Json.{Json}
use nexran.Resource.Error.{Result, ok, err, fault, ◌>>=◌}
use nexran.Config.Items.{
  admin_host, admin_port, rmr_nowait, boolean, string, integer, ItemValue, b, s, i, Item, Config,
  item_key, new_config, new_item,
}
use nexran.Config.Parse.{Opt, parse_argv, parse_env, lookup, load}
use nexran.Config.Parse.Values.{expected}
use nexran.Config.Parse.Load.{load-lookup}
use nexran.Config.Parse.Types.{HasArgument, has_type, load-HasType}
use nexran.Config.Parse.Given.{load-is_given, is_given, xapp_name_item, xapp_id_item}
use nexran.Config.Settings.{Settings, Documents, load_settings, registration}
use nexran.App.Process.{
  Process, Reply, status, registers, new_process, added_callbacks, listening, waiting, free, start,
  start_threads, init_server, start_server, tell_manager, joining_listener, joining_responder,
  terminated,
}

-- How `main` ends, or the process that it leaves to its threads. `failure` is the usage and exit code 1.
pub data Exit : Type 0 where
  failure crash : Exit
  serving : Process → Exit

-- An exception that `start` does not catch ends the process too.
abbrev pub or_crash : Result Process → Exit
or_crash (ok p) = elim p.caller [
  | free ↦ serving p
  | joining_listener ↦ serving p
  | joining_responder ↦ serving p
  | terminated ↦ crash
]
or_crash _ = crash

module _ (json : Json) (documents : Documents json) where
  unfoldable pub main : (String → Option String) → List Opt → Reply → Exit
  unfolding load load_settings new_process start
  main getenv opts reply = elim (load getenv opts new_config) [
    | err e ↦ failure
    | fault ↦ crash
    | ok config ↦ or_crash (
        load_settings json documents getenv >>= λ settings.
        new_process config settings >>= start reply)
  ]

ok-injective : {A : Type 0} {x y : A} → ok x ≡ ok y → x ≡ y
ok-injective h = ground (arith, h)

typed_i : (v : Option ItemValue) → has_type integer v ≡ true → (n : ℤ) × (v ≡ some (i n))
typed_i (some (i n)) h = (n, refl)
typed_i (some (b x)) h = absurd (ground (arith, h))
typed_i (some (s x)) h = absurd (ground (arith, h))
typed_i none h = absurd (ground (arith, h))

typed_s : (v : Option ItemValue) → has_type string v ≡ true → (t : String) × (v ≡ some (s (some t)))
typed_s (some (s (some t))) h = (t, refl)
typed_s (some (s none)) h = absurd (ground (arith, h))
typed_s (some (b x)) h = absurd (ground (arith, h))
typed_s (some (i n)) h = absurd (ground (arith, h))
typed_s none h = absurd (ground (arith, h))

typed_b : (v : Option ItemValue) → has_type boolean v ≡ true → (x : Bool) × (v ≡ some (b x))
typed_b (some (b x)) h = (x, refl)
typed_b (some (s x)) h = absurd (ground (arith, h))
typed_b (some (i n)) h = absurd (ground (arith, h))
typed_b none h = absurd (ground (arith, h))

-- A process that has started.
abbrev pub started : Config → Settings → String → ℤ → Bool → Process
started config settings host port nowait = record {
  config = config;
  settings = settings;
  running = true;
  should_stop = false;
  wait_for_route = not nowait;
  messenger_stopped = false;
  callbacks = added_callbacks;
  requests = registers (registration settings) ∷ [];
  server = record { address = some (host, port); running = true };
  listener = listening;
  responder = waiting;
  groups = [];
  caller = free;
}

new_process-start :
    (config : Config) (settings : Settings) (code : ℕ) (host : String) (port : ℤ) (nowait : Bool)
    → lookup admin_port config ≡ ok (some (i port))
    → lookup admin_host config ≡ ok (some (s (some host)))
    → lookup rmr_nowait config ≡ ok (some (b nowait))
    → (new_process config settings >>= start (status code))
      ≡ ok (started config settings host port nowait)
unfolding new_process start start_threads init_server start_server tell_manager
new_process-start config settings code host port nowait hp hh hn = ground arith

abbrev pub admin_host_item : Item
admin_host_item =
    new_item string b'A' "admin-host" "ADMIN_HOST" false (some (s (some "0.0.0.0")))
      "The local IP on which the northbound interface listens."

abbrev pub admin_port_item : Item
admin_port_item =
    new_item integer b'a' "admin-port" "ADMIN_PORT" false (some (i (pos 8000)))
      "The northbound interface listen port."

abbrev pub rmr_nowait_item : Item
rmr_nowait_item =
    new_item boolean b'R' "rmr-nowait" "RMR_NOWAIT" false (some (b false))
      "Do not wait for RMR route established (waits by default)."

module _ (getenv : String → Option String) (opts : List Opt) (config : Config)
    (a : All HasArgument opts) (h : load getenv opts new_config ≡ ok config) where
  loaded_port :
      (port : ℤ) × (lookup admin_port config ≡ ok (some (i port)))
      × (expected getenv opts admin_port_item ≡ some (i port))
  unfolding new_config new_item find
  loaded_port =
      let (v, e, t) = load-HasType getenv opts config admin_port admin_port_item a h refl in
      let (n, q) = typed_i v t in
      (
        n,
        e ∙ ap ok q,
        ok-injective
            (sym (load-lookup getenv opts config admin_port admin_port_item h refl) ∙ e ∙ ap ok q),
      )

  loaded_host :
      (host : String) × (lookup admin_host config ≡ ok (some (s (some host))))
      × (expected getenv opts admin_host_item ≡ some (s (some host)))
  unfolding new_config new_item find
  loaded_host =
      let (v, e, t) = load-HasType getenv opts config admin_host admin_host_item a h refl in
      let (n, q) = typed_s v t in
      (
        n,
        e ∙ ap ok q,
        ok-injective
            (sym (load-lookup getenv opts config admin_host admin_host_item h refl) ∙ e ∙ ap ok q),
      )

  loaded_nowait :
      (nowait : Bool) × (lookup rmr_nowait config ≡ ok (some (b nowait)))
      × (expected getenv opts rmr_nowait_item ≡ some (b nowait))
  unfolding new_config new_item find
  loaded_nowait =
      let (v, e, t) = load-HasType getenv opts config rmr_nowait rmr_nowait_item a h refl in
      let (n, q) = typed_b v t in
      (
        n,
        e ∙ ap ok q,
        ok-injective
            (sym (load-lookup getenv opts config rmr_nowait rmr_nowait_item h refl) ∙ e ∙ ap ok q),
      )

main-started :
    (json : Json) (documents : Documents json) (getenv : String → Option String) (opts : List Opt)
    (config : Config) (settings : Settings) (code : ℕ) (host : String) (port : ℤ) (nowait : Bool)
    → load getenv opts new_config ≡ ok config
    → load_settings json documents getenv ≡ ok settings
    → lookup admin_port config ≡ ok (some (i port))
    → lookup admin_host config ≡ ok (some (s (some host)))
    → lookup rmr_nowait config ≡ ok (some (b nowait))
    → main json documents getenv opts (status code)
      ≡ serving (started config settings host port nowait)
unfolding main
main-started json documents getenv opts config settings code host port nowait h l hp hh hn =
    rw (h, l, main) (ap or_crash (new_process-start config settings code host port nowait hp hh hn))

-- If every option but the flag has an argument and is known, the xApp's name and ID are given, the
-- descriptor can be read, and the registration raises no exception, the program comes to serve: the
-- REST interface is bound to the host and the port that the configuration is expected to hold, RMR
-- waits for a route unless the flag says not to, and one registration has been sent.
pub main-serving :
    (json : Json) (documents : Documents json) (getenv : String → Option String) (opts : List Opt)
    (m : Config) (settings : Settings) (code : ℕ)
    → All HasArgument opts
    → parse_argv opts new_config ≡ ok m
    → is_given getenv opts xapp_name_item ≡ true
    → is_given getenv opts xapp_id_item ≡ true
    → load_settings json documents getenv ≡ ok settings
    → (config : Config) × (host : String) × (port : ℤ) × (nowait : Bool) × (main json documents
          getenv opts
          (status code)
        ≡ serving (started config settings host port nowait))
      × (expected getenv opts admin_host_item ≡ some (s (some host)))
      × (expected getenv opts admin_port_item ≡ some (i port))
      × (expected getenv opts rmr_nowait_item ≡ some (b nowait))
main-serving json documents getenv opts m settings code a h gn gi l =
    let config = parse_env getenv m in
    let loaded : load getenv opts new_config ≡ ok config =
      load-is_given getenv opts m h
      ∙ ap (λ t. if t then ok config else err none) (ap₂ ◌&&◌ gn gi) in
    let (port, pl, pe) = loaded_port getenv opts config a loaded in
    let (host, hl, he) = loaded_host getenv opts config a loaded in
    let (nowait, nl, ne) = loaded_nowait getenv opts config a loaded in
    (
      config,
      host,
      port,
      nowait,
      main-started json documents getenv opts config settings code host port nowait loaded l pl hl
          nl,
      he,
      pe,
      ne,
    )
