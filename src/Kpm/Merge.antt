-- ===== src/Kpm/Merge.antt =====
-- What `decode_kpm_indication` of lib/e2sm/src/e2sm_kpm.cc makes of a message's containers.
use nexran.Base.{
  ◌≡◌, ◌≢◌, refl, ap, Bool, true, false, List, [], ◌∷◌, Option, none, some, arith, if◌then◌else◌,
  ◌==◌, Key, string_key, All, Bool-cases, inl, inr,
}
use mathlib.Core.Path.{subst}
use nexran.Base.Int.{ℤ, int_key}
use nexran.Base.Map.{Map, find, put, find-put, find-put_same, put-All}
use nexran.E2sm.Types.{Bytes}
use nexran.Kpm.Metrics.{EntityMetrics}
use nexran.Kpm.Period.{KpmPeriod}
use nexran.Kpm.Report.{KpmReport}
use nexran.Resource.Error.{fault}
use nexran.Kpm.Decode.{
  PrbItem, ByteItem, DuLists, CuLists, Container, no_container, other_container, odu, ocu_cp,
  ocu_up, no_rnti, no_name, prbs_entry, bytes_entry, add_prbs, add_bytes, add_all_prbs,
  add_all_bytes, decode_du_plmns, decode_odu, decode_cu_plmns, decode_ocu_up, decode_container,
  decode_containers, empty_report, decode_kpm_indication, KpmCodec, decode,
}

module _ {K : Type 0} ⦃key : Key K⦄ where
  entry-entry :
      (now : ℤ) (i : PrbItem K) (j : ByteItem K) (o : Option EntityMetrics)
      → prbs_entry now i (some (bytes_entry now j o))
        ≡ bytes_entry now j (some (prbs_entry now i o))
  entry-entry now i j none = refl
  entry-entry now i j (some e) = refl

  find-put-put :
      (a k : K) (v w : EntityMetrics) (m : Map K EntityMetrics)
      → find k (put a w (put a v m)) ≡ (if a == k then some w else find k m)
  find-put-put a k v w m = ground (arith, find-put a k w (put a v m), find-put a k v m)

  -- Both steps at one key.
  merge_at :
      (now : ℤ) (i : PrbItem K) (j : ByteItem K) (a k : K) (m : Map K EntityMetrics)
      → let v = bytes_entry now j (find a m) in
        let w = prbs_entry now i (find a m) in
        find k (put a (prbs_entry now i (find a (put a v m))) (put a v m))
        ≡ find k (put a (bytes_entry now j (find a (put a w m))) (put a w m))
  merge_at now i j a k m =
      let v = bytes_entry now j (find a m) in
      let w = prbs_entry now i (find a m) in
      rw
        (
          find-put_same a a v m refl,
          find-put_same a a w m refl,
          find-put-put a k v (prbs_entry now i (some v)) m,
          find-put-put a k w (bytes_entry now j (some w)) m,
        )
        (ap (λ x. if a == k then some x else find k m) (entry-entry now i j (find a m)))

  -- The PRBs and the bytes of a UE or a slice come from two containers, and it does not matter which
  -- of them stands first.
  pub add_prbs-add_bytes :
      (now : ℤ) (i : PrbItem K) (j : ByteItem K) (k : K) (m : Map K EntityMetrics)
      → i.entity ≡ j.entity
      → find k (add_prbs now i (add_bytes now j m)) ≡ find k (add_bytes now j (add_prbs now i m))
  unfolding add_prbs add_bytes
  add_prbs-add_bytes now i j k m e = rw (e, add_prbs, add_bytes) (merge_at now i j j.entity k m)

  -- No entry is for a key that the loops pass over.
  abbrev pub Kept : (K → Bool) → K × EntityMetrics → Type 0
  Kept skip x = skip x.0 ≡ false

  add_all_prbs-Kept :
      (skip : K → Bool) (now : ℤ) (items : List (PrbItem K)) (m : Map K EntityMetrics)
      → All (Kept skip) m
      → All (Kept skip) (add_all_prbs skip now items m)
  unfolding add_all_prbs add_prbs
  add_all_prbs-Kept skip now [] m a = a
  add_all_prbs-Kept skip now (i ∷ items) m a = elim (Bool-cases (skip i.entity)) [
    | inl y ↦ rw (y, add_all_prbs) (add_all_prbs-Kept skip now items m a)
    | inr n ↦
        rw (n, add_all_prbs)
          (add_all_prbs-Kept skip now items (add_prbs now i m)
            (put-All (Kept skip) i.entity _ m n a))
  ]

  add_all_bytes-Kept :
      (skip : K → Bool) (now : ℤ) (items : List (ByteItem K)) (m : Map K EntityMetrics)
      → All (Kept skip) m
      → All (Kept skip) (add_all_bytes skip now items m)
  unfolding add_all_bytes add_bytes
  add_all_bytes-Kept skip now [] m a = a
  add_all_bytes-Kept skip now (i ∷ items) m a = elim (Bool-cases (skip i.entity)) [
    | inl y ↦ rw (y, add_all_bytes) (add_all_bytes-Kept skip now items m a)
    | inr n ↦
        rw (n, add_all_bytes)
          (add_all_bytes-Kept skip now items (add_bytes now i m)
            (put-All (Kept skip) i.entity _ m n a))
  ]

-- Every UE of a report has a positive RNTI, and every slice a name.
pub record IsKeyed (r : KpmReport) : Type 0 where
  pub ues : All (Kept no_rnti) r.ues
  pub slices : All (Kept no_name) r.slices

decode_du_plmns-IsKeyed :
    (now : ℤ) (plmns : List (Option DuLists)) (r : KpmReport)
    → IsKeyed r
    → IsKeyed (decode_du_plmns now plmns r)
unfolding decode_du_plmns
decode_du_plmns-IsKeyed now [] r k = k
decode_du_plmns-IsKeyed now (none ∷ plmns) r k = decode_du_plmns-IsKeyed now plmns r k
decode_du_plmns-IsKeyed now (some l ∷ plmns) r k = decode_du_plmns-IsKeyed now plmns _ (record {
  ues = add_all_prbs-Kept no_rnti now l.ues r.ues k.ues;
  slices = add_all_prbs-Kept no_name now l.slices r.slices k.slices;
})

decode_cu_plmns-IsKeyed :
    (now : ℤ) (plmns : List (Option CuLists)) (r : KpmReport)
    → IsKeyed r
    → IsKeyed (decode_cu_plmns now plmns r)
unfolding decode_cu_plmns
decode_cu_plmns-IsKeyed now [] r k = k
decode_cu_plmns-IsKeyed now (none ∷ plmns) r k = decode_cu_plmns-IsKeyed now plmns r k
decode_cu_plmns-IsKeyed now (some l ∷ plmns) r k = decode_cu_plmns-IsKeyed now plmns _ (record {
  ues = add_all_bytes-Kept no_rnti now l.ues r.ues k.ues;
  slices = add_all_bytes-Kept no_name now l.slices r.slices k.slices;
})

decode_ocu_up-IsKeyed :
    (now : ℤ) (items : List (List (Option CuLists))) (r : KpmReport)
    → IsKeyed r
    → IsKeyed (decode_ocu_up now items r)
unfolding decode_ocu_up
decode_ocu_up-IsKeyed now [] r k = k
decode_ocu_up-IsKeyed now (plmns ∷ items) r k =
    decode_ocu_up-IsKeyed now items (decode_cu_plmns now plmns r)
      (decode_cu_plmns-IsKeyed now plmns r k)

decode_container-IsKeyed :
    (now : ℤ) (c : Container) (r : KpmReport) → IsKeyed r → IsKeyed (decode_container now c r)
unfolding decode_container decode_odu
decode_container-IsKeyed now no_container r k = k
decode_container-IsKeyed now other_container r k = k
decode_container-IsKeyed now (odu []) r k = k
decode_container-IsKeyed now (odu (cell ∷ [])) r k =
    decode_du_plmns-IsKeyed now cell.plmns _ (record { ues = k.ues; slices = k.slices })
decode_container-IsKeyed now (odu (cell ∷ next ∷ cells)) r k = k
decode_container-IsKeyed now (ocu_cp n) r k = record { ues = k.ues; slices = k.slices }
decode_container-IsKeyed now (ocu_up items) r k = decode_ocu_up-IsKeyed now items r k

decode_containers-IsKeyed :
    (now : ℤ) (cs : List Container) (r : KpmReport)
    → IsKeyed r
    → IsKeyed (decode_containers now cs r)
unfolding decode_containers
decode_containers-IsKeyed now [] r k = k
decode_containers-IsKeyed now (c ∷ cs) r k =
    decode_containers-IsKeyed now cs (decode_container now c r) (decode_container-IsKeyed now c r k)

-- Whatever the containers hold, every UE of the report has a positive RNTI and every slice a name.
pub decode_kpm_indication-IsKeyed :
    (now : ℤ) (cs : List Container) (r : KpmReport)
    → decode_kpm_indication now (some cs) ≡ some r
    → IsKeyed r
unfolding decode_kpm_indication
decode_kpm_indication-IsKeyed now cs r h =
    subst IsKeyed (ground (arith, h))
      (decode_containers-IsKeyed now cs empty_report (record { ues = tt; slices = tt }))

-- A header and a message that are not empty and decode, the message of another format than 1, give no
-- report, and where the subscription has a KPM trigger its period is written through the null pointer.
pub decode-fault :
    (codec : KpmCodec) (now : ℤ) (period : KpmPeriod) (header message : Bytes)
    → header ≢ []
    → message ≢ []
    → codec.decode_header header ≡ true
    → codec.decode_message message ≡ some none
    → decode codec now (some period) header message ≡ fault
unfolding decode decode_kpm_indication
decode-fault codec now period [] message hh hm d m = absurd (hh refl)
decode-fault codec now period (h ∷ header) [] hh hm d m = absurd (hm refl)
decode-fault codec now period (h ∷ header) (b ∷ message) hh hm d m = ground arith
