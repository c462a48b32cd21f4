-- ===== src/App/Bind.antt =====
-- The four bindings of `App`, src/nexran.cc.
pub mod Stale
use nexran.Base.{String, not, ◌||◌, [], ◌∷◌, none, some, if◌then◌else◌, string_key}
use nexran.Base.Map.{Map, find, put}
use nexran.E2sm.Types.{slice_delete, slice_ue_bind, slice_ue_unbind}
use nexran.E2ap.State.{Platform}
use nexran.Resource.Error.{ok, raise}
use nexran.Resource.Ue.{is_bound, bind_slice as bind_ue_to}
use nexran.Resource.Slice.{bind_ue, unbind_ue}
use nexran.Resource.NodeB.{bind_slice, unbind_slice}
use nexran.App.Types.{App, Outcome}
use nexran.App.Send.{send_control, send_to_bound, share_control}

-- The object that a name stands for, or status 404.
abbrev pub require :
    {V : Type 0}
    → Map String V
    → String
    → String
    → App
    → (V → Outcome (Unit {0}))
    → Outcome (Unit {0})
require m k message app f = elim (find k m) [ none ↦ (app, raise 404 message) | some v ↦ f v ]

module _ (platform : Platform) where
  unfoldable pub bind_slice_nodeb : String → String → App → Outcome (Unit {0})
  unfolding bind_slice send_control
  bind_slice_nodeb slice_name nodeb_name app =
      require app.slices slice_name "slice does not exist" app λ s.
        require app.nodebs nodeb_name "nodeb does not exist" app λ nb.
          let (nb', done) = bind_slice s nb in
          if not done then (app, raise 403 "slice already bound to nodeb") else (
            record app {
              nodebs = put nodeb_name nb' app.nodebs;
              e2ap = send_control platform (share_control s) nb.name app.e2ap;
            },
            ok tt,
          )

  unfoldable pub unbind_slice_nodeb : String → String → App → Outcome (Unit {0})
  unfolding unbind_slice send_control
  unbind_slice_nodeb slice_name nodeb_name app =
      require app.slices slice_name "slice does not exist" app λ s.
        require app.nodebs nodeb_name "nodeb does not exist" app λ nb.
          let (nb', done) = unbind_slice slice_name nb in
          if not done then (app, raise 404 "slice not bound to this nodeb") else (
            record app {
              nodebs = put nodeb_name nb' app.nodebs;
              e2ap = send_control platform (slice_delete (slice_name ∷ [])) nb.name app.e2ap;
            },
            ok tt,
          )

  unfoldable pub bind_ue_slice : String → String → App → Outcome (Unit {0})
  unfolding is_bound bind_ue bind_ue_to send_to_bound
  bind_ue_slice imsi slice_name app = require app.slices slice_name "slice does not exist" app λ s.
      require app.ues imsi "ue does not exist" app λ u.
        let (s', done) = bind_ue u s in
        if is_bound u || not done then (app, raise 403 "ue already bound to slice") else (
          record app {
            ues = put imsi (bind_ue_to slice_name u).0 app.ues;
            slices = put slice_name s' app.slices;
            e2ap =
                send_to_bound platform slice_name (slice_ue_bind s.name (u.imsi ∷ [])) app.nodebs
                  app.e2ap;
          },
          ok tt,
        )

  -- The UE's own `bound_slice` stays as it is.
  unfoldable pub unbind_ue_slice : String → String → App → Outcome (Unit {0})
  unfolding unbind_ue send_to_bound
  unbind_ue_slice imsi slice_name app =
      require app.slices slice_name "slice does not exist" app λ s.
        require app.ues imsi "ue does not exist" app λ u.
          let (s', done) = unbind_ue imsi s in
          if not done then (app, raise 404 "ue not bound to this slice") else (
            record app {
              slices = put slice_name s' app.slices;
              e2ap =
                  send_to_bound platform slice_name (slice_ue_unbind s.name (imsi ∷ [])) app.nodebs
                    app.e2ap;
            },
            ok tt,
          )
