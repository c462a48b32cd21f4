-- ===== src/App/Process.antt =====
-- How the program starts and stops: `main` of src/main.cc, `App::start`, `stop`, `response_handler` and
-- the registration of src/nexran.cc, and `RestServer::init`, `start` and `stop` of src/restserver.cc.
-- Threads are steps of a relation, in App/Process/Threads.
pub mod Pass
pub mod Threads
pub mod Main
use nexran.Base.{
  ℕ, String, Bool, true, false, not, List, [], ◌∷◌, ◌++◌, Option, none, some, if◌then◌else◌,
}
use nexran.Base.Int.{ℤ}
use nexran.Resource.Error.{Result, ok, err, fault, ◌>>=◌}
use nexran.Config.Items.{ItemValue, b, s, i, Config, admin_host, admin_port, rmr_nowait}
use nexran.Config.Parse.{lookup}
use nexran.Config.Settings.{Settings, registration}
use nexran.App.Group.{RequestGroup, response_code}
use nexran.App.Dispatch.{
  MessageType, sub_resp, sub_failure, sub_del_resp, sub_del_failure, control_ack, control_failure,
  indication,
}

-- `app->config[name]->b`, `->s` and `->i`: a null pointer, and a member that was not written last, are
-- faults, and so is a text that is a null pointer where a `std::string` is made of it.
abbrev pub read_b : Option ItemValue → Result Bool
read_b (some (b x)) = ok x
read_b _ = fault

abbrev pub read_s : Option ItemValue → Result String
read_s (some (s (some t))) = ok t
read_s _ = fault

abbrev pub read_i : Option ItemValue → Result ℤ
read_i (some (i n)) = ok n
read_i _ = fault

-- `RestServer`: where its endpoint is bound, if it is, and whether it serves.
pub record RestServer : Type 0 where
  pub address : Option (String × ℤ)
  pub running : Bool

unfoldable pub init_server : Config → RestServer → Result RestServer
unfolding lookup
init_server config server = lookup admin_port config >>= read_i >>= λ port.
    lookup admin_host config >>= read_s >>= λ host.
    ok (record server { address = some (host, port) })

unfoldable pub start_server : RestServer → RestServer
start_server server = record server { running = true }

unfoldable pub stop_server : RestServer → RestServer
stop_server server = record server { running = false }

-- What the application manager is told: the body is the same for both requests.
pub data Request : Type 0 where
  registers deregisters : List (String × String) → Request

-- The HTTP client's task ends with a status, which is only logged, or with an exception, which `get`
-- throws again.
pub data Reply : Type 0 where
  status : ℕ → Reply
  exception : Reply

-- `rmr_thread`, which runs `Listen` of the RMR messenger.
pub data Listener : Type 0 where
  no_listener listening returned : Listener

-- `response_thread`: it waits for `cv` with the mutex, or it has let the mutex go after a pass, or its
-- function has returned.
pub data Responder : Type 0 where
  no_responder waiting unlocked exited : Responder

-- Where the thread stands that calls `start` and `stop`; `terminated` is the end of the process by an
-- exception that nothing catches or by undefined behaviour.
pub data Caller : Type 0 where
  free joining_listener joining_responder terminated : Caller

pub record Process : Type 0 where
  pub config : Config
  pub settings : Settings
  pub running : Bool
  pub should_stop : Bool
  pub wait_for_route : Bool
  pub messenger_stopped : Bool
  pub callbacks : List MessageType
  pub requests : List Request
  pub server : RestServer
  pub listener : Listener
  pub responder : Responder
  pub groups : List RequestGroup
  pub caller : Caller

-- The constructor `App::App`.
unfoldable pub new_process : Config → Settings → Result Process
unfolding lookup
new_process config settings = lookup rmr_nowait config >>= read_b >>= λ nowait. ok (record {
  config = config;
  settings = settings;
  running = false;
  should_stop = false;
  wait_for_route = not nowait;
  messenger_stopped = false;
  callbacks = [];
  requests = [];
  server = record { address = none; running = false };
  listener = no_listener;
  responder = no_responder;
  groups = [];
  caller = free;
})

-- `register_xapp` and `deregister_xapp`.
unfoldable pub tell_manager : (List (String × String) → Request) → Reply → Process → Process
unfolding registration
tell_manager request (status code) p = record p {
  requests = p.requests ++ request (registration p.settings) ∷ [];
}
tell_manager request exception p = record p {
  requests = p.requests ++ request (registration p.settings) ∷ [];
  caller = terminated;
}

abbrev pub added_callbacks : List MessageType
added_callbacks =
    sub_resp ∷ sub_failure ∷ sub_del_resp ∷ sub_del_failure ∷ control_ack ∷ control_failure
    ∷ indication ∷ []

-- The part of `start` that follows the registration.
unfoldable pub start_threads : Process → Result Process
unfolding init_server start_server
start_threads p = init_server p.config p.server >>= λ server. ok (record p {
  callbacks = p.callbacks ++ added_callbacks;
  listener = listening;
  responder = if p.should_stop then exited else waiting;
  server = start_server server;
  running = true;
})

-- `App::start`, with the manager's reply to the registration.
unfoldable pub start : Reply → Process → Result Process
unfolding tell_manager start_threads
start reply p =
    if p.running
    then ok p
    else (let told = tell_manager registers reply (record p { should_stop = false }) in
        elim reply [ status code ↦ start_threads told | exception ↦ ok told ])

-- `App::stop` up to the first `join`, which crashes on a null pointer.
unfoldable pub begin_stop : Reply → Process → Process
unfolding tell_manager stop_server
begin_stop reply p =
    let p1 = tell_manager deregisters reply (record p { server = stop_server p.server }) in
    elim reply [
      | exception ↦ p1
      | status code ↦ elim p.listener [
        | no_listener ↦ record p1 { messenger_stopped = true; caller = terminated }
        | listening ↦ record p1 { messenger_stopped = true; caller = joining_listener }
        | returned ↦ record p1 { messenger_stopped = true; caller = joining_listener }
      ]
    ]

-- The iterator of the loop: at a group of the list, or at one that `erase(it)` has taken out of it.
pub data Iterator : Type 0 where
  at_group erased : Iterator

-- `++it`, which is undefined on an iterator that an erasure made invalid.
unfoldable pub next : Iterator → Result (Unit {0})
next at_group = ok tt
next erased = fault

-- The body of the loop: the codes that it sends, what it leaves of the group, and the iterator.
unfoldable pub visit : ℤ → RequestGroup → List ℕ × List RequestGroup × Iterator
unfolding response_code
visit now g = elim (response_code now g) [
  | none ↦ ([], g ∷ [], at_group)
  | some code ↦ (code ∷ [], [], erased)
]

-- One pass of `response_handler` over the groups: the codes that it sends, and the groups that are left.
unfoldable pub response_pass : ℤ → List RequestGroup → List ℕ × Result (List RequestGroup)
unfolding visit next
response_pass now [] = ([], ok [])
response_pass now (g ∷ groups) =
    let (sent, kept, it) = visit now g in
    let (codes, rest) = response_pass now groups in
    elim (next it) [
      | ok u ↦ (sent ++ codes, rest >>= (λ gs. ok (kept ++ gs)))
      | err ae ↦ (sent, err ae)
      | fault ↦ (sent, fault)
    ]
