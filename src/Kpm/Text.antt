-- ===== src/Kpm/Text.antt =====
-- `KpmReport::to_string` of lib/e2sm/src/e2sm_kpm.cc. How a stream prints a `double` is a parameter.
use nexran.Base.{ℕ, String, List, [], ◌∷◌, ◌++◌, ◌-◌, ◌^◌, if◌then◌else◌, ltb, ◌≡◌, refl}
use Prim.Native.String.{◌++◌ as append}
use nexran.Base.Int.{ℤ, pos, negsuc}
use nexran.Base.Map.{Map}
use nexran.Base.Text.{to_string}
use nexran.Kpm.Metrics.{EntityMetrics}
use nexran.Kpm.Report

-- The `int64_t` that a 64-bit pattern stands for.
abbrev signed : ℕ → ℤ
signed n = if ltb n (2 ^ 63) then pos n else negsuc (2 ^ 64 - 1 - n)

-- What is put into a stream, in order.
unfoldable pub concat : List String → String
concat [] = ""
concat (t ∷ ts) = append t (concat ts)

module _ (show_double : ℕ → String) where
  unfoldable pub metrics_text : String → EntityMetrics → List String
  unfolding to_string
  metrics_text item_delim e =
      "dl_bytes="
      ∷ to_string (pos e.dl_bytes)
      ∷ item_delim
      ∷ "ul_bytes="
      ∷ to_string (pos e.ul_bytes)
      ∷ item_delim
      ∷ "dl_prbs="
      ∷ to_string (pos e.dl_prbs)
      ∷ item_delim
      ∷ "ul_prbs="
      ∷ to_string (pos e.ul_prbs)
      ∷ item_delim
      ∷ "tx_pkts="
      ∷ to_string (signed e.tx_pkts)
      ∷ item_delim
      ∷ "tx_errors="
      ∷ to_string (signed e.tx_errors)
      ∷ item_delim
      ∷ "tx_brate="
      ∷ to_string (signed e.tx_brate)
      ∷ item_delim
      ∷ "rx_pkts="
      ∷ to_string (signed e.rx_pkts)
      ∷ item_delim
      ∷ "rx_errors="
      ∷ to_string (signed e.rx_errors)
      ∷ item_delim
      ∷ "rx_brate="
      ∷ to_string (signed e.rx_brate)
      ∷ item_delim
      ∷ "dl_cqi="
      ∷ show_double e.dl_cqi
      ∷ item_delim
      ∷ "dl_ri="
      ∷ show_double e.dl_ri
      ∷ item_delim
      ∷ "dl_pmi="
      ∷ show_double e.dl_pmi
      ∷ item_delim
      ∷ "ul_phr="
      ∷ show_double e.ul_phr
      ∷ item_delim
      ∷ "ul_sinr="
      ∷ show_double e.ul_sinr
      ∷ item_delim
      ∷ "ul_mcs="
      ∷ show_double e.ul_mcs
      ∷ item_delim
      ∷ "ul_samples="
      ∷ to_string (signed e.ul_samples)
      ∷ item_delim
      ∷ []

  unfoldable pub ue_texts : String → String → Map ℤ EntityMetrics → List String
  unfolding metrics_text
  ue_texts group_delim item_delim [] = []
  ue_texts group_delim item_delim ((rnti, e) ∷ m) =
      "ue[" ∷ to_string rnti ∷ "]={" ∷ metrics_text item_delim e
      ++ "}" ∷ group_delim ∷ ue_texts group_delim item_delim m

  unfoldable pub slice_texts : String → String → Map String EntityMetrics → List String
  unfolding metrics_text
  slice_texts group_delim item_delim [] = []
  slice_texts group_delim item_delim ((name, e) ∷ m) =
      "slice[" ∷ name ∷ "]={" ∷ metrics_text item_delim e
      ++ "}" ∷ group_delim ∷ slice_texts group_delim item_delim m

  unfoldable pub report_text : String → String → Report.KpmReport → String
  unfolding concat ue_texts slice_texts
  report_text group_delim item_delim r = concat (
      "KpmReport(period="
      ∷ to_string r.period_ms
      ∷ " ms)"
      ∷ group_delim
      ∷ "available_dl_prbs="
      ∷ to_string r.available_dl_prbs
      ∷ group_delim
      ∷ "available_ul_prbs="
      ∷ to_string r.available_ul_prbs
      ∷ group_delim
      ∷ (ue_texts group_delim item_delim r.ues ++ slice_texts group_delim item_delim r.slices))

report_text_example :
    report_text
      (λ d. "0")
      " "
      ";"
      (record {
        period_ms = pos 10;
        available_dl_prbs = pos 100;
        available_ul_prbs = pos 50;
        active_ues = pos 0;
        ues = [];
        slices = [];
      })
    ≡ "KpmReport(period=10 ms) available_dl_prbs=100 available_ul_prbs=50 "
unfolding report_text to_string
report_text_example = refl
