-- ===== src/Examples/Process.antt =====
-- The properties of the process: a start, a stop, and a pass over two groups.
use nexran.Base.{
  Bool, true, false, List, [], ◌∷◌, none, some, ℕ, All, ◌⊎◌, ◌≡◌, refl, arith, String,
}
use nexran.Base.Int.{ℤ, pos}
use nexran.Resource.Error.{Result, ok, fault}
use nexran.Config.Items.{ItemValue, Config, new_config}
use nexran.Config.Parse.{parse_argv, load}
use nexran.Config.Parse.Values.{expected}
use nexran.Config.Settings.{load_settings}
use nexran.App.Group.{RequestGroup, response_code, is_done, done_loop, is_expired}
use nexran.Examples.Group.{group}
use nexran.App.Process.{
  Process, status, Caller, returned, new_process, start, begin_stop, response_pass, visit, next,
}
use nexran.App.Process.Pass.{expected_code, IsFirst, response_pass_lem}
use nexran.App.Process.Threads.{
  Steps, none_yet, later, start_step, listen_step, join_listener, is_stopping, stop-ne-return,
}
use nexran.App.Process.Main.{
  main, serving, started, main-serving, admin_host_item, admin_port_item, rmr_nowait_item,
}
use nexran.Examples.{json}
use nexran.Examples.Config.{getenv, opts, opts-HasArgument, parsed, config, documents, settings}

abbrev got : Result Process → Process
got (ok p) = p
got _ = started config settings "" (pos 0) false

abbrev made : Process
unfolding new_process
made = got (new_process config settings)

abbrev serving_one : Process
serving_one = started config settings "0.0.0.0" (pos 9000) false

made-Steps : Steps made serving_one
unfolding made new_process start config load new_config
made-Steps = later none_yet (start_step (status 201) made serving_one refl refl)

abbrev stopping : Process
unfolding begin_stop
stopping = begin_stop (status 201) serving_one

abbrev quiet : Process
quiet = record stopping { listener = returned }

-- The listener ends, and the call of `stop` comes to its second join.
stop-ne-return_example : is_stopping Caller.joining_responder ≡ true
unfolding made new_process config load new_config stopping begin_stop
stop-ne-return_example =
    stop-ne-return config settings made serving_one _ (status 201) refl made-Steps (
      later (later none_yet (listen_step stopping (λ e. ground (arith, e)) refl refl))
        (join_listener quiet refl refl))

-- At time 9 the first of these groups has time, and the second is over.
abbrev groups : List RequestGroup
groups = record group { timeout = pos 20 } ∷ group ∷ []

response_pass_lem_example :
    (All (λ g. expected_code (pos 9) g ≡ none) groups
      × (response_pass (pos 9) groups ≡ ([], ok groups)))
    ⊎ ((code : ℕ) × IsFirst (pos 9) groups code
        × (response_pass (pos 9) groups ≡ (code ∷ [], fault)))
response_pass_lem_example = response_pass_lem (pos 9) groups

groups_time_out : response_pass (pos 9) groups ≡ (504 ∷ [], fault)
unfolding response_pass visit next response_code is_done done_loop is_expired
groups_time_out = refl

main-serving_example :
    (config : Config) × (host : String) × (port : ℤ) × (nowait : Bool) × (main json documents getenv
        opts
        (status 201)
      ≡ serving (started config settings host port nowait))
    × (expected getenv opts admin_host_item ≡ some (ItemValue.s (some host)))
    × (expected getenv opts admin_port_item ≡ some (ItemValue.i port))
    × (expected getenv opts rmr_nowait_item ≡ some (ItemValue.b nowait))
unfolding parsed parse_argv new_config settings load_settings
main-serving_example =
    main-serving json documents getenv opts parsed settings 201 opts-HasArgument refl refl refl refl
