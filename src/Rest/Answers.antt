-- ===== src/Rest/Answers.antt =====
-- The answers of the handlers of src/restserver.cc.
use nexran.Base.{
  ◌≡◌, ◌≢◌, ◌&&◌, ◌⊎◌, inl, inr, refl, ap, ℕ, String, Bool, true, false, ◌||◌, [], ◌∷◌, none, some,
  arith, nat_beq, string_key, Option-cases,
}
use nexran.Base.Map.{Map, find, put}
use nexran.Resource.Json.{Json}
use nexran.Resource.Error.{Result, ok, err, fault}
use nexran.Resource.Pointer.{Ref}
use nexran.Resource.Ue
use nexran.Resource.Ue.{Ue}
use nexran.Resource.Slice
use nexran.Resource.NodeB
use nexran.E2ap.State.{Platform}
use nexran.App.Types.{
  App, Outcome, Resource, nodeb, slice, ue, ResourceType, nodeb_resource, slice_resource,
  ue_resource,
}
use nexran.App.Store.{
  add, del, del_ue, del_slice, del_nodeb, update, serialize_named, unbind_all_ues, unbind_through,
}
use nexran.App.Bind.{bind_slice_nodeb, unbind_slice_nodeb, bind_ue_slice, unbind_ue_slice}
use nexran.App.Call.{
  Call, run, discard, adding, deleting, updating, binding_slice, unbinding_slice, binding_ue,
  unbinding_ue,
}
use nexran.App.Linked.{IsConsistent}
use nexran.App.Linked.Delete.{del-ne-fault}
use nexran.App.Call.Failure.{run-unchanged}
use nexran.Rest.Routes.{
  Endpoint, get_version, get_nodeb, get_nodebs, post_nodeb, put_nodeb, delete_nodeb,
  post_nodeb_slice_binding, delete_nodeb_slice_binding, get_slice, get_slices, post_slice,
  put_slice, delete_slice, post_slice_ue_binding, delete_slice_ue_binding, get_ue, get_ues, post_ue,
  put_ue, delete_ue,
}
use nexran.Rest.Version.{Version}
use nexran.Rest.Reply.{
  Answer, responds, crashes, Request, handle_app_error, finish, done, get_all, get_one, post_one,
  put_one, delete_one, made,
}
use nexran.Rest.Handle.{handle}
use nexran.Rest.Status.{
  is_client_error, is_reported, NodeB_update-reported, Slice_update-reported, Ue_update-reported,
  NodeB_create-reported, Slice_create-reported, Ue_create-reported,
}
use nexran.Rest.Crashes.{
  is_wrong, name_is_long, policy_is_wrong, NodeB_create-fault, Slice_create-fault,
  Ue_create-ne-fault, NodeB_update-ne-fault, Slice_update-ne-fault, Ue_update-fault,
}

abbrev pub is_success : Answer → Bool
is_success (responds r) = nat_beq r.code 200 || nat_beq r.code 201
is_success crashes = false

abbrev pub is_refusal : Answer → Bool
is_refusal (responds r) = is_client_error r.code
is_refusal crashes = false

-- A success, a client's error with the state as it was, or, if `may_crash` says so, a crash with the
-- state as it was.
abbrev pub IsAnswer : Bool → App → App × Answer → Type 0
IsAnswer may_crash app (app', answer) =
    (is_success answer ≡ true)
    ⊎ ((is_refusal answer ≡ true) × (app' ≡ app))
    ⊎ ((answer ≡ crashes) × (may_crash ≡ true) × (app' ≡ app))

abbrev is_ok : {A : Type 0} → Result A → Bool
is_ok (ok a) = true
is_ok _ = false

module _ (platform : Platform) (json : Json) (version : Version) where
  finish-IsAnswer :
      {A : Type 0} (may_crash : Bool) (app : App) (code : ℕ) (reply : A → Answer) (o : Outcome A)
      → ((a : A) → is_success (reply a) ≡ true)
      → is_reported o.1 ≡ true
      → (is_ok o.1 ≡ true) ⊎ (o.0 ≡ app)
      → (o.1 ≡ fault → may_crash ≡ true)
      → IsAnswer may_crash app (finish platform json version code reply o)
  unfolding handle_app_error
  finish-IsAnswer b app code reply (app', ok a) s r u f = inl (s a)
  finish-IsAnswer b app code reply (app', err none) s r u f = absurd (ground (arith, r))
  finish-IsAnswer b app code reply (app', err (some ae)) s r (inl n) f = absurd (ground (arith, n))
  finish-IsAnswer b app code reply (app', err (some ae)) s r (inr u) f =
      inr (inl (ground (arith, r), u))
  finish-IsAnswer b app code reply (app', fault) s r (inl n) f = absurd (ground (arith, n))
  finish-IsAnswer b app code reply (app', fault) s r (inr u) f = inr (inr (refl, f refl, u))

  unbind_all_ues-reported :
      (refs : Map String Ref) (ues : Map String Ue) → is_reported (unbind_all_ues refs ues) ≡ true
  unfolding unbind_all_ues unbind_through
  unbind_all_ues-reported [] ues = refl
  unbind_all_ues-reported ((imsi, r) ∷ refs) ues = elim (Option-cases (find r.name ues)) [
    | inl n ↦ ground arith
    | inr (u, y) ↦
        ground (arith, unbind_all_ues-reported refs (put r.name (Ue.unbind_slice u).0 ues))
  ]

  -- Each changing call says why it fails.
  run-reported :
      (c : Call platform json) (app : App) → is_reported (run platform json c app).1 ≡ true
  unfolding run add del del_ue del_slice del_nodeb update bind_slice_nodeb unbind_slice_nodeb
      bind_ue_slice unbind_ue_slice
  run-reported (adding (nodeb nb)) app = ground arith
  run-reported (adding (slice s)) app = ground arith
  run-reported (adding (ue u)) app = ground arith
  run-reported (deleting nodeb_resource rname) app = ground arith
  run-reported (deleting slice_resource rname) app = elim (Option-cases (find rname app.slices)) [
    | inl n ↦ ground arith
    | inr (s, y) ↦ ground (arith, unbind_all_ues-reported s.ues app.ues)
  ]
  run-reported (deleting ue_resource rname) app = ground arith
  run-reported (updating nodeb_resource rname d) app = elim (Option-cases (find rname app.nodebs)) [
    | inl n ↦ ground arith
    | inr (s, y) ↦ ground (arith, NodeB_update-reported json d s)
  ]
  run-reported (updating slice_resource rname d) app = elim (Option-cases (find rname app.slices)) [
    | inl n ↦ ground arith
    | inr (s, y) ↦ ground (arith, Slice_update-reported json d s)
  ]
  run-reported (updating ue_resource rname d) app = elim (Option-cases (find rname app.ues)) [
    | inl n ↦ ground arith
    | inr (s, y) ↦ ground (arith, Ue_update-reported json d s)
  ]
  run-reported (binding_slice s nb) app = ground arith
  run-reported (unbinding_slice s nb) app = ground arith
  run-reported (binding_ue u s) app = ground arith
  run-reported (unbinding_ue u s) app = ground arith

  ok_or_unchanged :
      (c : Call platform json) (app : App)
      → IsConsistent app
      → (is_ok (run platform json c app).1 ≡ true) ⊎ ((run platform json c app).0 ≡ app)
  ok_or_unchanged c app i = elim (run-unchanged platform json c app) [
    | inl y ↦ inl (ap (λ r. is_ok r) y)
    | inr (inl u) ↦ inr u
    | inr (inr (n, q, y, inconsistent)) ↦ absurd (inconsistent i)
  ]

  -- A handler that makes one call.
  one_call-IsAnswer :
      (may_crash : Bool) (code : ℕ) (c : Call platform json) (app : App)
      → IsConsistent app
      → ((run platform json c app).1 ≡ fault → may_crash ≡ true)
      → IsAnswer may_crash app
          (finish platform json version code (done platform json version) (run platform json c app))
  one_call-IsAnswer b code c app i f =
      finish-IsAnswer b app code _ (run platform json c app) (λ u. refl) (run-reported c app)
        (ok_or_unchanged c app i) f

  get_one-IsAnswer :
      (rt : ResourceType) (rname : String) (app : App)
      → IsAnswer false app (get_one platform json version rt rname app)
  unfolding get_one serialize_named
  get_one-IsAnswer nodeb_resource rname app =
      finish-IsAnswer false app 500 _ (app, serialize_named nodeb_resource rname app) (λ t. refl)
        (ground arith) (inr refl) (ground arith)
  get_one-IsAnswer slice_resource rname app =
      finish-IsAnswer false app 500 _ (app, serialize_named slice_resource rname app) (λ t. refl)
        (ground arith) (inr refl) (ground arith)
  get_one-IsAnswer ue_resource rname app =
      finish-IsAnswer false app 500 _ (app, serialize_named ue_resource rname app) (λ t. refl)
        (ground arith) (inr refl) (ground arith)

  discard-ok :
      {A : Type 0} (o : Outcome A) (app : App)
      → is_reported (discard platform json o).1 ≡ true
      → (is_ok (discard platform json o).1 ≡ true) ⊎ ((discard platform json o).0 ≡ app)
      → (is_reported o.1 ≡ true) × ((is_ok o.1 ≡ true) ⊎ (o.0 ≡ app))
  discard-ok (app', ok a) app r u = (refl, inl refl)
  discard-ok (app', err e) app r u = (r, u)
  discard-ok (app', fault) app r u = (refl, u)

  add-ne-fault : (r : Resource) (app : App) → (add platform r app).1 ≢ fault
  unfolding add
  add-ne-fault (nodeb nb) app = ground arith
  add-ne-fault (slice s) app = ground arith
  add-ne-fault (ue u) app = ground arith

  post_one-IsAnswer :
      (may_crash : Bool) (r : Result Resource) (app : App)
      → IsConsistent app
      → is_reported r ≡ true
      → (r ≡ fault → may_crash ≡ true)
      → IsAnswer may_crash app (post_one platform json version r app)
  unfolding post_one run handle_app_error
  post_one-IsAnswer b (ok x) app i h f =
      let (r, u) =
        discard-ok (add platform x app) app (run-reported (adding x) app)
          (ok_or_unchanged (adding x) app i) in
      finish-IsAnswer b app 400 _ (add platform x app) (λ t. refl) r u
        (λ y. absurd (add-ne-fault x app y))
  post_one-IsAnswer b (err none) app i h f = absurd (ground (arith, h))
  post_one-IsAnswer b (err (some ae)) app i h f = inr (inl (ground (arith, h), refl))
  post_one-IsAnswer b fault app i h f = inr (inr (refl, f refl, refl))

  made-reported :
      {A : Type 0} (f : A → Resource) (r : Result A)
      → is_reported r ≡ true
      → is_reported (made platform json version f r) ≡ true
  made-reported f (ok a) h = refl
  made-reported f (err e) h = h
  made-reported f fault h = refl

  made-fault :
      {A : Type 0} (f : A → Resource) (r : Result A)
      → made platform json version f r ≡ fault
      → r ≡ fault
  made-fault f (ok a) h = absurd (ground (arith, h))
  made-fault f (err e) h = absurd (ground (arith, h))
  made-fault f fault h = refl

  binding-ne-fault :
      (x y : String) (app : App)
      → ((bind_slice_nodeb platform x y app).1 ≢ fault)
        × ((unbind_slice_nodeb platform x y app).1 ≢ fault)
        × ((bind_ue_slice platform x y app).1 ≢ fault)
        × ((unbind_ue_slice platform x y app).1 ≢ fault)
  unfolding bind_slice_nodeb unbind_slice_nodeb bind_ue_slice unbind_ue_slice
  binding-ne-fault x y app = (ground arith, ground arith, ground arith, ground arith)

  -- An update crashes only if that of the object does.
  update-fault :
      (rname : String) (d : json.Value) (app : App)
      → ((update platform json nodeb_resource rname d app).1 ≢ fault)
        × ((update platform json slice_resource rname d app).1 ≢ fault)
        × ((update platform json ue_resource rname d app).1 ≡ fault
            → is_wrong json json.is_string d "imsi" || is_wrong json json.is_string d "tmsi" ≡ true)
  unfolding update
  update-fault rname d app = (
    λ h. elim (Option-cases (find rname app.nodebs)) [
      | inl n ↦ ground (arith, h)
      | inr (nb, y) ↦ ground (arith, h, NodeB_update-ne-fault json d nb)
    ],
    λ h. elim (Option-cases (find rname app.slices)) [
      | inl n ↦ ground (arith, h)
      | inr (s, y) ↦ ground (arith, h, Slice_update-ne-fault json d s)
    ],
    λ h. elim (Option-cases (find rname app.ues)) [
      | inl n ↦ absurd (ground (arith, h))
      | inr (u, y) ↦ Ue_update-fault json d u (ground (arith, h))
    ],
  )

  -- What crashes a handler: a new node whose name is too long, and values of a type that rapidjson
  -- asserts, in the policy of a new slice and in an update of a UE.
  abbrev pub may_crash : Endpoint → Request platform json version → Bool
  may_crash post_nodeb q = name_is_long json q.body
  may_crash post_slice q =
      json.has_member q.body "allocation_policy"
      && policy_is_wrong json (json.member q.body "allocation_policy")
  may_crash put_ue q =
      is_wrong json json.is_string q.body "imsi" || is_wrong json json.is_string q.body "tmsi"
  may_crash _ q = false

  -- In a consistent state, whatever the request, a handler answers 200 or 201; or it leaves the state
  -- as it was and answers 400, 403 or 404, never 500; or it crashes, and then the request makes a node
  -- whose name has 128 characters or more, makes a slice whose policy has a member "throttle" that is no
  -- Boolean or "throttle_threshold", "throttle_period" or "throttle_share" that is no int, or updates a
  -- UE with an "imsi" or "tmsi" that is no string.
  pub handle-IsAnswer :
      (e : Endpoint) (q : Request platform json version) (app : App)
      → IsConsistent app
      → IsAnswer (may_crash e q) app (handle platform json version e q app)
  unfolding handle get_all put_one delete_one run
  handle-IsAnswer get_version q app i = inl refl
  handle-IsAnswer get_nodeb q app i = get_one-IsAnswer nodeb_resource q.name app
  handle-IsAnswer get_nodebs q app i = inl refl
  handle-IsAnswer post_nodeb q app i =
      let r = NodeB.create json q.address q.body in
      post_one-IsAnswer _ _ app i
        (made-reported nodeb r (NodeB_create-reported json q.address q.body))
        (λ h. NodeB_create-fault json q.address q.body (made-fault nodeb r h))
  handle-IsAnswer put_nodeb q app i =
      one_call-IsAnswer _ 400 (updating nodeb_resource q.name q.body) app i
        (λ h. absurd ((update-fault q.name q.body app).0 h))
  handle-IsAnswer delete_nodeb q app i =
      one_call-IsAnswer _ 500 (deleting nodeb_resource q.name) app i
        (λ h. absurd (del-ne-fault platform nodeb_resource q.name app i h))
  handle-IsAnswer post_nodeb_slice_binding q app i =
      one_call-IsAnswer _ 400 (binding_slice q.slice_name q.nodeb_name) app i
        (λ h. absurd ((binding-ne-fault q.slice_name q.nodeb_name app).0 h))
  handle-IsAnswer delete_nodeb_slice_binding q app i =
      one_call-IsAnswer _ 400 (unbinding_slice q.slice_name q.nodeb_name) app i
        (λ h. absurd ((binding-ne-fault q.slice_name q.nodeb_name app).1 h))
  handle-IsAnswer get_slice q app i = get_one-IsAnswer slice_resource q.name app
  handle-IsAnswer get_slices q app i = inl refl
  handle-IsAnswer post_slice q app i =
      let r = Slice.create json q.address q.body in
      post_one-IsAnswer _ _ app i
        (made-reported slice r (Slice_create-reported json q.address q.body))
        (λ h. Slice_create-fault json q.address q.body (made-fault slice r h))
  handle-IsAnswer put_slice q app i =
      one_call-IsAnswer _ 400 (updating slice_resource q.name q.body) app i
        (λ h. absurd ((update-fault q.name q.body app).1 h))
  handle-IsAnswer delete_slice q app i =
      one_call-IsAnswer _ 500 (deleting slice_resource q.name) app i
        (λ h. absurd (del-ne-fault platform slice_resource q.name app i h))
  handle-IsAnswer post_slice_ue_binding q app i =
      one_call-IsAnswer _ 400 (binding_ue q.imsi q.slice_name) app i
        (λ h. absurd ((binding-ne-fault q.imsi q.slice_name app).2 h))
  handle-IsAnswer delete_slice_ue_binding q app i =
      one_call-IsAnswer _ 400 (unbinding_ue q.imsi q.slice_name) app i
        (λ h. absurd ((binding-ne-fault q.imsi q.slice_name app).3 h))
  handle-IsAnswer get_ue q app i = get_one-IsAnswer ue_resource q.imsi app
  handle-IsAnswer get_ues q app i = inl refl
  handle-IsAnswer post_ue q app i =
      let r = Ue.create json q.address q.garbage q.body in
      post_one-IsAnswer _ _ app i
        (made-reported ue r (Ue_create-reported json q.address q.garbage q.body))
        (λ h. absurd (Ue_create-ne-fault json q.address q.garbage q.body (made-fault ue r h)))
  handle-IsAnswer put_ue q app i =
      one_call-IsAnswer _ 400 (updating ue_resource q.imsi q.body) app i
        (update-fault q.imsi q.body app).2
  handle-IsAnswer delete_ue q app i =
      one_call-IsAnswer _ 500 (deleting ue_resource q.imsi) app i
        (λ h. absurd (del-ne-fault platform ue_resource q.imsi app i h))
