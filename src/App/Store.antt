-- ===== src/App/Store.antt =====
-- `serialize`, `add`, `del` and `update` of `App`, src/nexran.cc.
use nexran.Base.{
  String, not, List, [], ◌∷◌, ◌++◌, Option, none, some, if◌then◌else◌, nat_beq, string_key,
}
use Prim.Native.String.{◌++◌ as append}
use nexran.Base.Map.{Map, find, contains, put, erase}
use nexran.E2sm.Types.{slice_status, slice_delete, slice_ue_unbind}
use nexran.E2ap.State.{Platform, E2ap, delete_all_subscriptions}
use nexran.Resource.Json.{Json}
use nexran.Resource.Error.{Result, ok, err, fault, raise, ◌>>=◌}
use nexran.Resource.Pointer.{Ref}
use nexran.Resource.Writer.{Token, start_object, end_object, start_array, end_array, str}
use nexran.Resource.Ue
use nexran.Resource.Ue.{Ue, is_bound, unbind_slice}
use nexran.Resource.Slice
use nexran.Resource.Slice.{Slice, unbind_ue}
use nexran.Resource.NodeB
use nexran.Resource.NodeB.{NodeB}
use nexran.App.Types.{
  App, Outcome, ResourceType, nodeb_resource, slice_resource, ue_resource, Resource, nodeb, slice,
  ue, rtype_to_label, rtype_to_label_plural,
}
use nexran.App.Send.{send_control, send_to_bound, subscribe_kpm, share_control}

module _ {V : Type 0} (serialize_one : V → List Token) where
  abbrev pub values_tokens : Map String V → List Token
  values_tokens [] = []
  values_tokens ((k, v) ∷ m) = serialize_one v ++ values_tokens m

  abbrev pub one_tokens : ResourceType → Option V → Result (List Token)
  one_tokens rt none = raise 404 (append (rtype_to_label rt) " does not exist")
  one_tokens rt (some v) = ok (serialize_one v)

abbrev pub db_tokens : ResourceType → App → List Token
db_tokens nodeb_resource app = values_tokens NodeB.serialize app.nodebs
db_tokens slice_resource app = values_tokens Slice.serialize app.slices
db_tokens ue_resource app = values_tokens Ue.serialize app.ues

-- `serialize(rt, writer)`.
unfoldable pub serialize_all : ResourceType → App → List Token
unfolding rtype_to_label_plural
serialize_all rt app =
    start_object ∷ str (rtype_to_label_plural rt) ∷ start_array ∷ db_tokens rt app
    ++ end_array ∷ end_object ∷ []

-- `serialize(rt, rname, writer, ae)`.
unfoldable pub serialize_named : ResourceType → String → App → Result (List Token)
unfolding rtype_to_label
serialize_named nodeb_resource rname app =
    one_tokens NodeB.serialize nodeb_resource (find rname app.nodebs)
serialize_named slice_resource rname app =
    one_tokens Slice.serialize slice_resource (find rname app.slices)
serialize_named ue_resource rname app = one_tokens Ue.serialize ue_resource (find rname app.ues)

-- `it->second->unbind_slice()` through the pointer `r`.
unfoldable pub unbind_through : Ref → Map String Ue → Result (Map String Ue)
unfolding unbind_slice
unbind_through r ues = elim (find r.name ues) [
  | none ↦ fault
  | some u ↦ if nat_beq u.address r.address then ok (put r.name (unbind_slice u).0 ues) else fault
]

-- `Slice::unbind_all_ues`: the loop over `ues`. What happens to the slice's own map is immaterial,
-- since its only caller deletes the slice.
unfoldable pub unbind_all_ues : Map String Ref → Map String Ue → Result (Map String Ue)
unfolding unbind_through
unbind_all_ues [] ues = ok ues
unbind_all_ues ((imsi, r) ∷ rest) ues = do ues' ← unbind_through r ues; unbind_all_ues rest ues'

abbrev pub names : {V : Type 0} → Map String V → List String
names [] = []
names ((k, v) ∷ m) = k ∷ names m

module _ (platform : Platform) where
  -- A new node is asked for the status of its slices and for KPM reports.
  unfoldable pub add : Resource → App → Outcome (List Token)
  unfolding send_control subscribe_kpm
  add (nodeb nb) app =
      if contains nb.name app.nodebs then (app, raise 403 "nodeb already exists") else (
        record app {
          nodebs = put nb.name nb app.nodebs;
          e2ap =
              subscribe_kpm platform nb.name
                (send_control platform (slice_status []) nb.name app.e2ap);
        },
        ok (NodeB.serialize nb),
      )
  add (slice s) app =
      if contains s.name app.slices
      then (app, raise 403 "slice already exists")
      else (record app { slices = put s.name s app.slices }, ok (Slice.serialize s))
  add (ue u) app =
      if contains u.imsi app.ues
      then (app, raise 403 "ue already exists")
      else (record app { ues = put u.imsi u app.ues }, ok (Ue.serialize u))

  abbrev pub erase_ue : String → App → App
  erase_ue rname app = record app { ues = erase rname app.ues }

  unfoldable pub del_ue : String → Ue → App → Outcome (Unit {0})
  unfolding is_bound unbind_ue send_to_bound
  del_ue rname u app =
      if not (is_bound u)
      then (erase_ue rname app, ok tt)
      else elim (find u.bound_slice app.slices) [
        | none ↦ (erase_ue rname app, ok tt)
        | some s ↦
            let (s', done) = unbind_ue u.imsi s in
            if not done
            then (app, raise 404 "ue not bound to this slice")
            else let control = slice_ue_unbind u.bound_slice (u.imsi ∷ []) in
              (
                erase_ue rname (record app {
                  slices = put u.bound_slice s' app.slices;
                  e2ap = send_to_bound platform u.bound_slice control app.nodebs app.e2ap;
                }),
                ok tt,
              )
      ]

  -- The requests are sent before a dangling pointer among the slice's UEs is met.
  unfoldable pub del_slice : String → Slice → App → Outcome (Unit {0})
  unfolding unbind_all_ues send_to_bound
  del_slice rname s app =
      let e = send_to_bound platform rname (slice_delete (rname ∷ [])) app.nodebs app.e2ap in
      elim (unbind_all_ues s.ues app.ues) [
        | ok ues ↦ (record app { slices = erase rname app.slices; ues = ues; e2ap = e }, ok tt)
        | err ae ↦ (record app { e2ap = e }, err ae)
        | fault ↦ (record app { e2ap = e }, fault)
      ]

  -- `!slices.empty()`: one request that deletes them all.
  unfoldable pub delete_slices : List String → String → E2ap → E2ap
  unfolding send_control
  delete_slices [] meid e = e
  delete_slices (s ∷ ss) meid e = send_control platform (slice_delete (s ∷ ss)) meid e

  unfoldable pub del_nodeb : String → NodeB → App → Outcome (Unit {0})
  unfolding delete_slices delete_all_subscriptions
  del_nodeb rname nb app =
      let e = delete_slices (names nb.slices) nb.name app.e2ap in
      (
        record app {
          nodebs = erase rname app.nodebs;
          e2ap = delete_all_subscriptions platform rname e;
        },
        ok tt,
      )

  unfoldable pub del : ResourceType → String → App → Outcome (Unit {0})
  unfolding del_ue del_slice del_nodeb
  del ue_resource rname app = elim (find rname app.ues) [
    | none ↦ (app, raise 404 "not found")
    | some u ↦ del_ue rname u app
  ]
  del slice_resource rname app = elim (find rname app.slices) [
    | none ↦ (app, raise 404 "not found")
    | some s ↦ del_slice rname s app
  ]
  del nodeb_resource rname app = elim (find rname app.nodebs) [
    | none ↦ (app, raise 404 "not found")
    | some nb ↦ del_nodeb rname nb app
  ]

  module _ (json : Json) where
    open json use {Value}

    abbrev pub finish : {A : Type 0} → App → (A → App) → Result A → Outcome (Unit {0})
    finish app f (ok a) = (f a, ok tt)
    finish app f (err ae) = (app, err ae)
    finish app f fault = (app, fault)

    -- An updated slice's share goes to the nodes that it is bound to.
    unfoldable pub update : ResourceType → String → Value → App → Outcome (Unit {0})
    unfolding send_to_bound
    update ue_resource rname d app = elim (find rname app.ues) [
      | none ↦ (app, raise 404 "not found")
      | some u ↦ finish app (λ u'. record app { ues = put rname u' app.ues }) (Ue.update json d u)
    ]
    update slice_resource rname d app = elim (find rname app.slices) [
      | none ↦ (app, raise 404 "not found")
      | some s ↦
          finish app
            (λ s'. record app {
              slices = put rname s' app.slices;
              e2ap = send_to_bound platform rname (share_control s') app.nodebs app.e2ap;
            })
            (Slice.update json d s)
    ]
    update nodeb_resource rname d app = elim (find rname app.nodebs) [
      | none ↦ (app, raise 404 "not found")
      | some nb ↦
          finish app (λ nb'. record app { nodebs = put rname nb' app.nodebs })
            (NodeB.update json d nb)
    ]
