-- ===== src/E2sm/Object/Getters.antt =====
-- The getters of the objects that encode themselves, lib/e2sm/include/e2sm.h.
use mathlib.Core.Path.{ap₂}
use nexran.Base.{true, false, List, [], ◌∷◌, map, ◌≡◌, refl, arith}
use nexran.E2sm.Types.{
  Bytes, Control, slice_config, slice_delete, slice_status, slice_ue_bind, slice_ue_unbind,
}
use nexran.E2sm.Control.{Codec, encode, encode_parts}
use nexran.E2sm.Object.{
  ControlObject, new_object, header_of, message_of, ensure_encoded, get_header, get_message,
  get_call_process_id,
}

pub data Getter : Type 0 where
  header message call_process_id : Getter

module _ (codec : Codec) where
  abbrev pub call : Getter → ControlObject → ControlObject × Bytes
  unfolding get_header get_message get_call_process_id
  call header o = get_header codec o
  call message o = get_message codec o
  call call_process_id o = get_call_process_id codec o

  -- The results of a row of calls on one object.
  abbrev pub results : List Getter → ControlObject → List Bytes
  results [] o = []
  results (g ∷ gs) o = let (o', b) = call g o in b ∷ results gs o'

  -- What a getter is to give: a buffer of the encoding.
  abbrev pub part : Control → Getter → Bytes
  part control header = (encode codec control).0.header
  part control message = (encode codec control).0.message
  part control call_process_id = []

  encode_parts_of : (c : Control) → encode codec c ≡ encode_parts codec (header_of c) (message_of c)
  unfolding encode
  encode_parts_of (slice_config configs) = refl
  encode_parts_of (slice_delete names) = refl
  encode_parts_of (slice_status names) = refl
  encode_parts_of (slice_ue_bind slice imsis) = refl
  encode_parts_of (slice_ue_unbind slice imsis) = refl

  -- The object holds the encoding, or it is not encoded and holds nothing.
  pub record IsCached (c : Control) (o : ControlObject) : Type 0 where
    pub same : o.control ≡ c
    pub no_id : o.call_process_id ≡ []
    pub full : o.encoded ≡ true → (o.header ≡ part c header) × (o.message ≡ part c message)
    pub void : o.encoded ≡ false → (o.header ≡ []) × (o.message ≡ [])

  ensure_encoded-IsCached :
      (c : Control) (o : ControlObject)
      → IsCached c o
      → IsCached c (ensure_encoded codec o)
        × ((ensure_encoded codec o).header ≡ part c header)
        × ((ensure_encoded codec o).message ≡ part c message)
  unfolding ensure_encoded encode_parts
  ensure_encoded-IsCached c o v = ground (arith, encode_parts_of c)

  call-IsCached :
      (c : Control) (o : ControlObject) (g : Getter)
      → IsCached c o
      → IsCached c (call g o).0 × ((call g o).1 ≡ part c g)
  unfolding get_header get_message get_call_process_id
  call-IsCached c o header v = let (w, h, m) = ensure_encoded-IsCached c o v in (w, h)
  call-IsCached c o message v = let (w, h, m) = ensure_encoded-IsCached c o v in (w, m)
  call-IsCached c o call_process_id v =
      let (w, h, m) = ensure_encoded-IsCached c o v in (w, w.no_id)

  results-IsCached :
      (c : Control) (gs : List Getter) (o : ControlObject)
      → IsCached c o
      → results gs o ≡ map (part c) gs
  results-IsCached c [] o v = refl
  results-IsCached c (g ∷ gs) o v =
      let (w, e) = call-IsCached c o g v in ap₂ ◌∷◌ e (results-IsCached c gs (call g o).0 w)

  new_object-IsCached : (c : Control) → IsCached c (new_object c)
  unfolding new_object
  new_object-IsCached c = ground arith

  -- On a new control object every row of calls of the getters, for one request or for many, gives the
  -- buffers of the control's encoding, empty ones where the encoding fails.
  pub results-map : (c : Control) (gs : List Getter) → results gs (new_object c) ≡ map (part c) gs
  results-map c gs = results-IsCached c gs (new_object c) (new_object-IsCached c)
