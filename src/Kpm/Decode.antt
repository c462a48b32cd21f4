-- ===== src/Kpm/Decode.antt =====
-- `decode_kpm_indication` and `KpmModel::decode` of lib/e2sm/src/e2sm_kpm.cc. asn1c decodes the
-- header and the message; the records below are what the code reads of them.
use nexran.Base.{
  ℕ, String, Bool, List, [], ◌∷◌, Option, none, some, if◌then◌else◌, nat_beq, Key, string_key,
}
use Prim.Native.String.{len}
use nexran.Base.Int.{ℤ, pos, ltb_ℤ, int_key}
use nexran.Base.Map.{Map, find, put}
use nexran.E2sm.Types.{Bytes}
use nexran.Kpm.Metrics.{EntityMetrics, leading}
use nexran.Kpm.Period.{KpmPeriod, kpm_period_to_ms}
use nexran.Kpm.Report.{KpmReport}
use nexran.Resource.Error.{Result, ok, err, fault}

-- The thirteen counters of an item, as 64-bit patterns.
pub record Counters : Type 0 where
  pub tx_pkts : ℕ
  pub tx_errors : ℕ
  pub tx_brate : ℕ
  pub rx_pkts : ℕ
  pub rx_errors : ℕ
  pub rx_brate : ℕ
  pub dl_cqi : ℕ
  pub dl_ri : ℕ
  pub dl_pmi : ℕ
  pub ul_phr : ℕ
  pub ul_sinr : ℕ
  pub ul_mcs : ℕ
  pub ul_samples : ℕ

-- An item of a distributed unit for a UE (`K` is its RNTI) or a slice (`K` is its name). A PRB usage
-- that does not convert to `unsigned long` counts as 0.
pub record PrbItem (K : Type 0) : Type 0 where
  pub entity : K
  pub dl_prbs : ℕ
  pub ul_prbs : ℕ
  pub counters : Counters

-- An item of a central unit's user plane.
pub record ByteItem (K : Type 0) : Type 0 where
  pub entity : K
  pub dl_bytes : ℕ
  pub ul_bytes : ℕ

-- The lists of a PLMN, where it has an EPC container; an absent list is empty.
pub record DuLists : Type 0 where
  pub ues : List (PrbItem ℤ)
  pub slices : List (PrbItem String)

pub record CuLists : Type 0 where
  pub ues : List (ByteItem ℤ)
  pub slices : List (ByteItem String)

pub record CellItem : Type 0 where
  pub dl_available : Option ℤ
  pub ul_available : Option ℤ
  pub plmns : List (Option DuLists)

-- A member of `pm_Containers`: without a container, or with one of three kinds or another.
pub data Container : Type 0 where
  no_container other_container : Container
  odu : List CellItem → Container
  ocu_cp : Option ℤ → Container
  ocu_up : List (List (Option CuLists)) → Container

abbrev pub with_counters : Counters → EntityMetrics → EntityMetrics
with_counters c e = record e {
  tx_pkts = c.tx_pkts;
  tx_errors = c.tx_errors;
  tx_brate = c.tx_brate;
  rx_pkts = c.rx_pkts;
  rx_errors = c.rx_errors;
  rx_brate = c.rx_brate;
  dl_cqi = c.dl_cqi;
  dl_ri = c.dl_ri;
  dl_pmi = c.dl_pmi;
  ul_phr = c.ul_phr;
  ul_sinr = c.ul_sinr;
  ul_mcs = c.ul_mcs;
  ul_samples = c.ul_samples;
}

module _ {K : Type 0} ⦃key : Key K⦄ where
  abbrev pub prbs_entry : ℤ → PrbItem K → Option EntityMetrics → EntityMetrics
  prbs_entry now i none = with_counters i.counters (leading now 0 0 i.dl_prbs i.ul_prbs)
  prbs_entry now i (some e) =
      with_counters i.counters (record e { dl_prbs = i.dl_prbs; ul_prbs = i.ul_prbs })

  abbrev pub bytes_entry : ℤ → ByteItem K → Option EntityMetrics → EntityMetrics
  bytes_entry now i none = leading now i.dl_bytes i.ul_bytes 0 0
  bytes_entry now i (some e) = record e { dl_bytes = i.dl_bytes; ul_bytes = i.ul_bytes }

  -- One step of the loops over the items; `skip` says which of them are passed over.
  unfoldable pub add_prbs : ℤ → PrbItem K → Map K EntityMetrics → Map K EntityMetrics
  add_prbs now i m = put i.entity (prbs_entry now i (find i.entity m)) m

  unfoldable pub add_bytes : ℤ → ByteItem K → Map K EntityMetrics → Map K EntityMetrics
  add_bytes now i m = put i.entity (bytes_entry now i (find i.entity m)) m

  unfoldable pub add_all_prbs :
      (K → Bool) → ℤ → List (PrbItem K) → Map K EntityMetrics → Map K EntityMetrics
  unfolding add_prbs
  add_all_prbs skip now [] m = m
  add_all_prbs skip now (i ∷ items) m =
      add_all_prbs skip now items (if skip i.entity then m else add_prbs now i m)

  unfoldable pub add_all_bytes :
      (K → Bool) → ℤ → List (ByteItem K) → Map K EntityMetrics → Map K EntityMetrics
  unfolding add_bytes
  add_all_bytes skip now [] m = m
  add_all_bytes skip now (i ∷ items) m =
      add_all_bytes skip now items (if skip i.entity then m else add_bytes now i m)

-- `rnti < 1`, and an empty slice name.
abbrev pub no_rnti : ℤ → Bool
no_rnti rnti = ltb_ℤ rnti (pos 1)

abbrev pub no_name : String → Bool
no_name name = nat_beq (len name) 0

unfoldable pub decode_du_plmns : ℤ → List (Option DuLists) → KpmReport → KpmReport
unfolding add_all_prbs
decode_du_plmns now [] r = r
decode_du_plmns now (none ∷ plmns) r = decode_du_plmns now plmns r
decode_du_plmns now (some l ∷ plmns) r = decode_du_plmns now plmns (record r {
  ues = add_all_prbs no_rnti now l.ues r.ues;
  slices = add_all_prbs no_name now l.slices r.slices;
})

abbrev pub known_or : ℤ → Option ℤ → ℤ
known_or old none = old
known_or old (some new) = new

-- A distributed unit counts if it reports on exactly one cell.
unfoldable pub decode_odu : ℤ → List CellItem → KpmReport → KpmReport
unfolding decode_du_plmns
decode_odu now (cell ∷ []) r = decode_du_plmns now cell.plmns (record r {
  available_dl_prbs = known_or r.available_dl_prbs cell.dl_available;
  available_ul_prbs = known_or r.available_ul_prbs cell.ul_available;
})
decode_odu now cells r = r

unfoldable pub decode_cu_plmns : ℤ → List (Option CuLists) → KpmReport → KpmReport
unfolding add_all_bytes
decode_cu_plmns now [] r = r
decode_cu_plmns now (none ∷ plmns) r = decode_cu_plmns now plmns r
decode_cu_plmns now (some l ∷ plmns) r = decode_cu_plmns now plmns (record r {
  ues = add_all_bytes no_rnti now l.ues r.ues;
  slices = add_all_bytes no_name now l.slices r.slices;
})

unfoldable pub decode_ocu_up : ℤ → List (List (Option CuLists)) → KpmReport → KpmReport
unfolding decode_cu_plmns
decode_ocu_up now [] r = r
decode_ocu_up now (plmns ∷ items) r = decode_ocu_up now items (decode_cu_plmns now plmns r)

unfoldable pub decode_container : ℤ → Container → KpmReport → KpmReport
unfolding decode_odu decode_ocu_up
decode_container now (odu cells) r = decode_odu now cells r
decode_container now (ocu_cp n) r = record r { active_ues = known_or r.active_ues n }
decode_container now (ocu_up items) r = decode_ocu_up now items r
decode_container now c r = r

unfoldable pub decode_containers : ℤ → List Container → KpmReport → KpmReport
unfolding decode_container
decode_containers now [] r = r
decode_containers now (c ∷ cs) r = decode_containers now cs (decode_container now c r)

abbrev pub empty_report : KpmReport
empty_report = record {
  period_ms = pos 0;
  available_dl_prbs = pos 0;
  available_ul_prbs = pos 0;
  active_ues = pos 0;
  ues = [];
  slices = [];
}

-- The message's containers, or `none` where it is of another format; the result is then NULL.
unfoldable pub decode_kpm_indication : ℤ → Option (List Container) → Option KpmReport
unfolding decode_containers
decode_kpm_indication now none = none
decode_kpm_indication now (some cs) = some (decode_containers now cs empty_report)

pub record KpmCodec : Type 0 where
  pub decode_header : Bytes → Bool
  pub decode_message : Bytes → Option (Option (List Container))

-- The period of the subscription's trigger is written through the report, which may be NULL.
abbrev pub set_period : Option KpmPeriod → Option KpmReport → Result (Option KpmReport)
set_period none report = ok report
set_period (some period) none = fault
set_period (some period) (some r) = ok (some (record r { period_ms = kpm_period_to_ms period }))

-- An error is NULL. A header or message that is empty is missing.
unfoldable pub decode : KpmCodec → ℤ → Option KpmPeriod → Bytes → Bytes → Result (Option KpmReport)
unfolding decode_kpm_indication kpm_period_to_ms
decode codec now trigger [] message = err none
decode codec now trigger (h ∷ header) [] = err none
decode codec now trigger (h ∷ header) (b ∷ message) =
    if codec.decode_header (h ∷ header)
    then elim (codec.decode_message (b ∷ message)) [
      | none ↦ err none
      | some m ↦ set_period trigger (decode_kpm_indication now m)
    ]
    else err none
