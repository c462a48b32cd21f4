-- ===== src/Program.antt =====
-- The program between its start and its end: requests to the REST server of src/restserver.cc and RMR
-- messages to src/nexran.cc, in the order in which they take the mutex of `App`.
use mathlib.Core.List.{Nodup}
use nexran.Base.{String, List, [], ◌∷◌, All, ◌≢◌}
use nexran.Base.Int.{ℤ}
use nexran.E2sm.Types.{Bytes}
use nexran.E2ap.State.{Platform}
use nexran.Resource.Json.{Json}
use nexran.App.Types.{App, new_app}
use nexran.App.Equalize.Float.{FloatOps}
use nexran.App.Dispatch.{MessageType, Decoders, handle_rmr_message}
use nexran.App.Dispatch.Steps.{handle_rmr_message-Reach}
use nexran.App.Linked.{IsConsistent}
use nexran.App.Reach.{Reach, Reach-IsConsistent}
use nexran.App.Trace.Served.{Served}
use nexran.App.Trace.Tables.{IsTracked, Served-IsTracked}
use nexran.App.Trace.Ids.{ids, Served-Nodup}
use nexran.Rest.Routes.{Endpoint}
use nexran.Rest.Version.{Version}
use nexran.Rest.Reply.{Request}
use nexran.Rest.Handle.{handle}
use nexran.Rest.Steps.{handle-closed, handle-Reach}

module _ (platform : Platform) (json : Json) (ops : FloatOps) (decoders : Decoders)
    (version : Version) where
  pub data Event : Type 0 where
    request : Endpoint → Request platform json version → Event
    message : ℤ → MessageType → Bytes → ℤ → String → Event

  -- An event that crashes the program leaves a state too, from which nothing more happens in fact.
  unfoldable pub react : Event → App → App
  unfolding handle handle_rmr_message
  react (request e q) app = (handle platform json version e q app).0
  react (message now mtype buf subid xid) app =
      (handle_rmr_message platform ops decoders now mtype buf subid xid app).0

  unfoldable pub react_all : List Event → App → App
  unfolding react
  react_all [] app = app
  react_all (event ∷ events) app = react_all events (react event app)

  -- The router takes no path with an empty name.
  abbrev pub HasName : Event → Type 0
  HasName (request e q) = q.slice_name ≢ ""
  HasName (message now mtype buf subid xid) = Unit {0}

  abbrev Both : App → Type 0
  Both app = Reach platform json ops app × Served platform json ops decoders app

  react-Both : (event : Event) (app : App) → HasName event → Both app → Both (react event app)
  unfolding react
  react-Both (request e q) app n (r, s) = (
    handle-Reach platform json version ops e q app n r,
    handle-closed platform json version (Served platform json ops decoders)
        (λ c app i s. Served.call c app s) e q app n s,
  )
  react-Both (message now mtype buf subid xid) app n (r, s) = (
    handle_rmr_message-Reach platform json ops decoders now mtype buf subid xid app r,
    Served.message now mtype buf subid xid app s,
  )

  react_all-Both :
      (events : List Event) (app : App)
      → All HasName events
      → Both app
      → Both (react_all events app)
  unfolding react_all
  react_all-Both [] app a b = b
  react_all-Both (event ∷ events) app (n, a) b =
      react_all-Both events (react event app) a (react-Both event app n b)

  -- After any sequence of REST requests and RMR messages, of any kind and content, no request with an
  -- empty slice name among them: the database is consistent, what stands in the tables of the tracker
  -- was sent, and no two control and subscription requests have the same instance id.
  pub react_all_lem :
      (events : List Event)
      → All HasName events
      → let app = react_all events new_app in
        IsConsistent app × IsTracked app.e2ap × Nodup (ids app.e2ap.outbox)
  react_all_lem events a =
      let app = react_all events new_app in
      let (r, s) = react_all-Both events new_app a (Reach.start, Served.start) in
      (
        Reach-IsConsistent platform json ops app r,
        Served-IsTracked platform ops decoders json app s,
        Served-Nodup platform ops decoders json app s,
      )
