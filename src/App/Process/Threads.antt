-- ===== src/App/Process/Threads.antt =====
-- The threads of the program as steps, and `App::stop` of src/nexran.cc among them.
use nexran.Base.{ℕ, Bool, true, false, List, ◌≡◌, ◌≢◌, refl, if◌then◌else◌, arith}
use nexran.Base.Int.{ℤ}
use nexran.Resource.Error.{ok, fault}
use nexran.Config.Items.{Config}
use nexran.Config.Settings.{Settings}
use nexran.App.Group.{RequestGroup}
use nexran.App.Process.{
  Reply, status, exception, no_listener, listening, returned, Responder, no_responder, waiting,
  unlocked, exited, Caller, free, joining_listener, joining_responder, terminated, Process,
  new_process, start, start_threads, begin_stop, tell_manager, response_pass,
}

-- The responder after its loop's test.
abbrev pub next_round : Process → Responder
next_round p = if p.should_stop then exited else waiting

-- A step of a thread that has not ended with the process. `start` and `stop` are called by one thread;
-- `stop` is cut at its two joins, which wait for the end of a thread.
pub data Step : Process → Process → Type 0 where
  start_step :
      (reply : Reply) (p p' : Process) → p.caller ≡ free → start reply p ≡ ok p' → Step p p'
  stop_step : (reply : Reply) (p : Process) → p.caller ≡ free → Step p (begin_stop reply p)
  listen_step :
      (p : Process)
      → p.caller ≢ terminated
      → p.listener ≡ listening
      → p.messenger_stopped ≡ true
      → Step p (record p { listener = returned })
  join_listener :
      (p : Process)
      → p.caller ≡ joining_listener
      → p.listener ≡ returned
      → Step p (record p { listener = no_listener; caller = joining_responder })
  join_responder :
      (p : Process)
      → p.caller ≡ joining_responder
      → p.responder ≡ exited
      → Step p (record p {
        responder = no_responder;
        running = false;
        should_stop = false;
        caller = free;
      })
  timeout_step :
      (p : Process)
      → p.caller ≢ terminated
      → p.responder ≡ waiting
      → Step p (record p { responder = next_round p })
  pass_step :
      (now : ℤ) (p : Process) (codes : List ℕ) (groups : List RequestGroup)
      → p.caller ≢ terminated
      → p.responder ≡ waiting
      → response_pass now p.groups ≡ (codes, ok groups)
      → Step p (record p { groups = groups; responder = unlocked })
  pass_crash :
      (now : ℤ) (p : Process) (codes : List ℕ)
      → p.caller ≢ terminated
      → p.responder ≡ waiting
      → response_pass now p.groups ≡ (codes, fault)
      → Step p (record p { caller = terminated })
  -- To wait with a mutex that is not held is undefined; the library throws.
  unlocked_step :
      (p : Process)
      → p.caller ≢ terminated
      → p.responder ≡ unlocked
      → Step p (record p {
        responder = if p.should_stop then exited else unlocked;
        caller = if p.should_stop then p.caller else terminated;
      })

-- Any number of steps.
pub data Steps (p : Process) : Process → Type 0 where
  none_yet : Steps p p
  later : {q r : Process} → Steps p q → Step q r → Steps p r

-- Nothing has told the responder to stop, and it has not.
pub record IsServed (p : Process) : Type 0 where
  pub not_told : p.should_stop ≡ false
  pub not_exited : p.responder ≢ exited

Step-IsServed : {p q : Process} → Step p q → IsServed p → IsServed q
unfolding start start_threads begin_stop tell_manager
Step-IsServed (start_step reply p p' c h) v = ground arith
Step-IsServed (stop_step (status code) p c) v = ground arith
Step-IsServed (stop_step exception p c) v = ground arith
Step-IsServed (listen_step p c l m) v = ground arith
Step-IsServed (join_listener p c l) v = ground arith
Step-IsServed (join_responder p c l) v = ground arith
Step-IsServed (timeout_step p c w) v = ground arith
Step-IsServed (pass_step now p codes groups c w r) v = ground arith
Step-IsServed (pass_crash now p codes c w r) v = ground arith
Step-IsServed (unlocked_step p c u) v = ground arith

abbrev pub is_stopping : Caller → Bool
is_stopping free = false
is_stopping _ = true

Step-is_stopping :
    {p q : Process}
    → Step p q
    → IsServed p
    → is_stopping p.caller ≡ true
    → is_stopping q.caller ≡ true
Step-is_stopping (start_step reply p p' c h) v i = ground arith
Step-is_stopping (stop_step reply p c) v i = ground arith
Step-is_stopping (listen_step p c l m) v i = i
Step-is_stopping (join_listener p c l) v i = refl
Step-is_stopping (join_responder p c e) v i = absurd (v.not_exited e)
Step-is_stopping (timeout_step p c w) v i = i
Step-is_stopping (pass_step now p codes groups c w r) v i = i
Step-is_stopping (pass_crash now p codes c w r) v i = refl
Step-is_stopping (unlocked_step p c u) v i = ground arith

Steps-IsServed : {p q : Process} → Steps p q → IsServed p → IsServed q
Steps-IsServed none_yet v = v
Steps-IsServed (later r s) v = Step-IsServed s (Steps-IsServed r v)

Steps-is_stopping :
    {p q : Process}
    → Steps p q
    → IsServed p
    → is_stopping p.caller ≡ true
    → is_stopping q.caller ≡ true
Steps-is_stopping none_yet v i = i
Steps-is_stopping (later r s) v i =
    Step-is_stopping s (Steps-IsServed r v) (Steps-is_stopping r v i)

new_process-IsServed :
    (config : Config) (settings : Settings) (p : Process)
    → new_process config settings ≡ ok p
    → IsServed p
unfolding new_process
new_process-IsServed config settings p h = ground arith

begin_stop-IsServed : (reply : Reply) (p : Process) → IsServed p → IsServed (begin_stop reply p)
unfolding begin_stop tell_manager
begin_stop-IsServed (status code) p v = ground arith
begin_stop-IsServed exception p v = ground arith

begin_stop-is_stopping :
    (reply : Reply) (p : Process) → is_stopping (begin_stop reply p).caller ≡ true
unfolding begin_stop tell_manager
begin_stop-is_stopping reply p = ground arith

-- A call of `stop`, at whatever point of the life of a process, does not return: whatever the threads
-- do from there, the caller stands in one of the two joins, or the process has crashed.
pub stop-ne-return :
    (config : Config) (settings : Settings) (p0 p q : Process) (reply : Reply)
    → new_process config settings ≡ ok p0
    → Steps p0 p
    → Steps (begin_stop reply p) q
    → is_stopping q.caller ≡ true
stop-ne-return config settings p0 p q reply h r s =
    Steps-is_stopping s
      (begin_stop-IsServed reply p (Steps-IsServed r (new_process-IsServed config settings p0 h)))
      (begin_stop-is_stopping reply p)
