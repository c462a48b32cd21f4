-- ===== src/Rest/Reply.antt =====
-- What the handlers of `RestServer`, src/restserver.cc, have in common: a request, as far as they read
-- it, an answer, and the bodies that handlers for the three kinds of object share.
use nexran.Base.{ℕ, String, Bool, List, Option, none, some}
use nexran.Resource.Json.{Json}
use nexran.Resource.Error
use nexran.Resource.Error.{AppError, Result, ok, err, fault}
use nexran.Resource.Writer.{Token}
use nexran.E2ap.State.{Platform}
use nexran.App.Types.{App, Outcome, Resource, ResourceType}
use nexran.App.Store.{serialize_all, serialize_named, add, del, update}
use nexran.Rest.Version.{Version}

pub record Response : Type 0 where
  pub code : ℕ
  pub body : Option (List Token)

-- A handler sends one response, or the process crashes.
pub data Answer : Type 0 where
  responds : Response → Answer
  crashes : Answer

abbrev pub send : ℕ → Option (List Token) → Answer
send code body = responds (record { code = code; body = body })

-- `HANDLE_APP_ERROR(ae,default_code)`.
unfoldable pub handle_app_error : Option AppError → ℕ → Answer
unfolding Error.serialize
handle_app_error none default_code = send default_code none
handle_app_error (some ae) default_code = send ae.http_status (some (Error.serialize ae))

module _ (platform : Platform) (json : Json) (version : Version) where
  open json use {Value}

  -- The parameters of the path, the parsed body, the address of an object that the handler makes,
  -- and the byte of its memory that no constructor sets.
  pub record Request : Type 0 where
    pub name : String
    pub nodeb_name : String
    pub slice_name : String
    pub imsi : String
    pub body : Value
    pub address : ℕ
    pub garbage : Bool

  -- The ends of a handler: code 200 without a body, or what `reply` makes of the result.
  abbrev pub finish : {A : Type 0} → ℕ → (A → Answer) → Outcome A → App × Answer
  finish default_code reply (app, ok a) = (app, reply a)
  finish default_code reply (app, err ae) = (app, handle_app_error ae default_code)
  finish default_code reply (app, fault) = (app, crashes)

  abbrev pub done : Unit {0} → Answer
  done u = send 200 none

  unfoldable pub get_all : ResourceType → App → App × Answer
  unfolding serialize_all
  get_all rt app = (app, send 200 (some (serialize_all rt app)))

  unfoldable pub get_one : ResourceType → String → App → App × Answer
  unfolding serialize_named handle_app_error
  get_one rt rname app =
      finish 500 (λ tokens. send 200 (some tokens)) (app, serialize_named rt rname app)

  unfoldable pub post_one : Result Resource → App → App × Answer
  unfolding add handle_app_error
  post_one (ok r) app = finish 400 (λ tokens. send 201 (some tokens)) (add platform r app)
  post_one (err ae) app = (app, handle_app_error ae 400)
  post_one fault app = (app, crashes)

  unfoldable pub put_one : ResourceType → String → Value → App → App × Answer
  unfolding update handle_app_error
  put_one rt rname d app = finish 400 done (update platform json rt rname d app)

  unfoldable pub delete_one : ResourceType → String → App → App × Answer
  unfolding del handle_app_error
  delete_one rt rname app = finish 500 done (del platform rt rname app)

  abbrev pub made : {A : Type 0} → (A → Resource) → Result A → Result Resource
  made f (ok a) = ok (f a)
  made f (err ae) = err ae
  made f fault = fault
