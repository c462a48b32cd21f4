-- ===== src/Rest/Steps.antt =====
-- The requests to the REST server, src/restserver.cc, as calls of `App`.
use mathlib.Core.Path.{subst}
use nexran.Base.{◌≡◌, ◌≢◌, ℕ, refl, sym, [], arith}
use nexran.Resource.Json.{Json}
use nexran.Resource.Error.{Result, ok, err, fault}
use nexran.Resource.Slice
use nexran.Resource.Slice.{Slice, new_slice}
use nexran.Resource.Ue
use nexran.Resource.NodeB
use nexran.E2ap.State.{Platform}
use nexran.App.Types.{
  App, Outcome, Resource, nodeb, slice, ue, nodeb_resource, slice_resource, ue_resource,
}
use nexran.App.Store.{add, del}
use nexran.App.Linked.Store.{IsNew}
use nexran.App.Call.{
  Call, IsAllowed, run, discard, adding, deleting, updating, binding_slice, unbinding_slice,
  binding_ue, unbinding_ue, adds, deletes, updates, binds_slice, unbinds_slice, binds_ue,
  unbinds_ue,
}
use nexran.App.Equalize.Float.{FloatOps}
use nexran.App.Reach.{Reach, step, call_step}
use nexran.Rest.Routes.{
  Endpoint, get_version, get_nodeb, get_nodebs, post_nodeb, put_nodeb, delete_nodeb,
  post_nodeb_slice_binding, delete_nodeb_slice_binding, get_slice, get_slices, post_slice,
  put_slice, delete_slice, post_slice_ue_binding, delete_slice_ue_binding, get_ue, get_ues, post_ue,
  put_ue, delete_ue,
}
use nexran.Rest.Version.{Version}
use nexran.Rest.Reply.{
  Answer, Request, finish, done, get_all, get_one, post_one, put_one, delete_one, made,
}
use nexran.Rest.Handle.{handle}

-- `P` holds of the states that a call of `App`, as the handlers make it, leads to.
module _ (platform : Platform) (json : Json) (version : Version) (P : App → Type 0)
    (closed : (c : Call platform json) (app : App)
      → IsAllowed platform json c
      → P app
      → P (run platform json c app).0) where
  open json use {Value}

  finish-state :
      {A : Type 0} (code : ℕ) (reply : A → Answer) (o : Outcome A)
      → (finish platform json version code reply o).0 ≡ o.0
  finish-state code reply (app, ok a) = refl
  finish-state code reply (app, err e) = refl
  finish-state code reply (app, fault) = refl

  discard-state : {A : Type 0} (o : Outcome A) → (discard platform json o).0 ≡ o.0
  discard-state (app, ok a) = refl
  discard-state (app, err e) = refl
  discard-state (app, fault) = refl

  finish-closed :
      {A : Type 0} (code : ℕ) (reply : A → Answer) (o : Outcome A)
      → P o.0
      → P (finish platform json version code reply o).0
  finish-closed code reply o r = subst P (sym (finish-state code reply o)) r

  -- A slice that `create` makes lists no UE.
  create-ues :
      (address : ℕ) (d : Value) (s : Slice) → Slice.create json address d ≡ ok s → s.ues ≡ []
  unfolding Slice.create new_slice
  create-ues address d s h = ground arith

  post_one-closed :
      (r : Result Resource) (app : App)
      → ((x : Resource) → r ≡ ok x → IsNew x)
      → P app
      → P (post_one platform json version r app).0
  unfolding post_one run
  post_one-closed (ok x) app i r =
      finish-closed _ _ (add platform x app)
        (subst P (discard-state (add platform x app)) (closed (adding x) app (adds x (i x refl)) r))
  post_one-closed (err e) app i r = r
  post_one-closed fault app i r = r

  made-IsNew :
      {A : Type 0} (f : A → Resource) (r : Result A) (x : Resource)
      → ((a : A) → r ≡ ok a → IsNew (f a))
      → made platform json version f r ≡ ok x
      → IsNew x
  made-IsNew f (ok a) x i h = subst IsNew (ground (arith, h)) (i a refl)
  made-IsNew f (err e) x i h = absurd (ground (arith, h))
  made-IsNew f fault x i h = absurd (ground (arith, h))

  one_call :
      (c : Call platform json) (app : App)
      → IsAllowed platform json c
      → P app
      → P
          (finish platform json version 400
            (done platform json version)
            (run platform json c app)).0
  one_call c app i r = finish-closed _ _ (run platform json c app) (closed c app i r)

  -- Then it holds after a request whose slice name is not empty, whichever handler takes it.
  pub handle-closed :
      (e : Endpoint) (q : Request platform json version) (app : App)
      → q.slice_name ≢ ""
      → P app
      → P (handle platform json version e q app).0
  unfolding handle get_all get_one put_one delete_one run
  handle-closed get_version q app n r = r
  handle-closed get_nodeb q app n r = finish-closed _ _ _ r
  handle-closed get_nodebs q app n r = r
  handle-closed post_nodeb q app n r =
      post_one-closed (made platform json version nodeb (NodeB.create json q.address q.body)) app
        (λ x. made-IsNew nodeb _ x (λ a h. IsNew.new_nodeb a)) r
  handle-closed put_nodeb q app n r =
      one_call (updating nodeb_resource q.name q.body) app (updates _ _ _) r
  handle-closed delete_nodeb q app n r =
      finish-closed _ _ (del platform nodeb_resource q.name app)
        (closed (deleting nodeb_resource q.name) app (deletes _ _) r)
  handle-closed post_nodeb_slice_binding q app n r =
      one_call (binding_slice q.slice_name q.nodeb_name) app (binds_slice _ _) r
  handle-closed delete_nodeb_slice_binding q app n r =
      one_call (unbinding_slice q.slice_name q.nodeb_name) app (unbinds_slice _ _) r
  handle-closed get_slice q app n r = finish-closed _ _ _ r
  handle-closed get_slices q app n r = r
  handle-closed post_slice q app n r =
      post_one-closed (made platform json version slice (Slice.create json q.address q.body)) app
        (λ x. made-IsNew slice _ x (λ s h. IsNew.new_slice s (create-ues q.address q.body s h))) r
  handle-closed put_slice q app n r =
      one_call (updating slice_resource q.name q.body) app (updates _ _ _) r
  handle-closed delete_slice q app n r =
      finish-closed _ _ (del platform slice_resource q.name app)
        (closed (deleting slice_resource q.name) app (deletes _ _) r)
  handle-closed post_slice_ue_binding q app n r =
      one_call (binding_ue q.imsi q.slice_name) app (binds_ue _ _ n) r
  handle-closed delete_slice_ue_binding q app n r =
      one_call (unbinding_ue q.imsi q.slice_name) app (unbinds_ue _ _) r
  handle-closed get_ue q app n r = finish-closed _ _ _ r
  handle-closed get_ues q app n r = r
  handle-closed post_ue q app n r =
      post_one-closed (made platform json version ue (Ue.create json q.address q.garbage q.body))
        app (λ x. made-IsNew ue _ x (λ a h. IsNew.new_ue a)) r
  handle-closed put_ue q app n r =
      one_call (updating ue_resource q.imsi q.body) app (updates _ _ _) r
  handle-closed delete_ue q app n r =
      finish-closed _ _ (del platform ue_resource q.imsi app)
        (closed (deleting ue_resource q.imsi) app (deletes _ _) r)

module _ (platform : Platform) (json : Json) (version : Version) (ops : FloatOps) where
  -- From a state that is reached, a request whose slice name is not empty leads to one, whichever
  -- handler takes it and whatever it answers: the handlers meet what the calls of App ask for.
  pub handle-Reach :
      (e : Endpoint) (q : Request platform json version) (app : App)
      → q.slice_name ≢ ""
      → Reach platform json ops app
      → Reach platform json ops (handle platform json version e q app).0
  handle-Reach e q app n r =
      handle-closed platform json version (Reach platform json ops)
        (λ c app i r. step app _ r (call_step c app i)) e q app n r
