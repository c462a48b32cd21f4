-- ===== src/Examples/Kpm.antt =====
-- The properties of the metrics at a short queue.
use nexran.Base.{List, refl, String, true, none, some, string_key, ◌≡◌, [], ◌∷◌, arith}
use nexran.Base.Int.{pos, ◌-ℤ◌}
use nexran.Kpm.Metrics.{EntityMetrics, MetricsIndex, new_index, flush, add, leading}
use nexran.Kpm.Totals.{IsExact, new_index-IsExact, add-IsExact}
use nexran.Base.Map.{find}
use nexran.Kpm.Decode.{Counters, PrbItem, ByteItem, Container, odu, add_prbs, add_bytes, KpmCodec}
use nexran.Kpm.Merge.{add_prbs-add_bytes}
use nexran.Kpm.Window.{recent, flush-recent}

abbrev first : EntityMetrics
first = leading (pos 100) 1500 20 10 5

abbrev second : EntityMetrics
second = leading (pos 170) 30 40 6 7

abbrev index : MetricsIndex
index = add (pos 110) first (new_index (pos 60))

index-IsExact : IsExact index
index-IsExact =
    add-IsExact (pos 110) first (new_index (pos 60)) (ground arith) (new_index-IsExact (pos 60))

add-IsExact_example : IsExact (add (pos 175) second index)
add-IsExact_example = add-IsExact (pos 175) second index (ground arith) index-IsExact

flush-recent_example : (flush (pos 200) index).queue ≡ recent (pos 200 -ℤ index.period) index.queue
unfolding add flush new_index
flush-recent_example = flush-recent (pos 200) index (tt, tt)

-- A slice that a distributed unit and a central unit report on.
abbrev counters : Counters
counters = record {
  tx_pkts = 1;
  tx_errors = 2;
  tx_brate = 3;
  rx_pkts = 4;
  rx_errors = 5;
  rx_brate = 6;
  dl_cqi = 7;
  dl_ri = 8;
  dl_pmi = 9;
  ul_phr = 10;
  ul_sinr = 11;
  ul_mcs = 12;
  ul_samples = 13;
}

abbrev prbs : PrbItem String
prbs = record { entity = "fast"; dl_prbs = 30; ul_prbs = 20; counters = counters }

abbrev bytes : ByteItem String
bytes = record { entity = "fast"; dl_bytes = 1000; ul_bytes = 500 }

add_prbs-add_bytes_example :
    find "fast" (add_prbs (pos 9) prbs (add_bytes (pos 9) bytes []))
    ≡ find "fast" (add_bytes (pos 9) bytes (add_prbs (pos 9) prbs []))
add_prbs-add_bytes_example = add_prbs-add_bytes (pos 9) prbs bytes "fast" [] refl

abbrev pub containers : List Container
containers =
    odu (
      record {
        dl_available = some (pos 100);
        ul_available = none;
        plmns = some (record { ues = []; slices = prbs ∷ [] }) ∷ [];
      }
      ∷ [])
    ∷ []

abbrev codec : KpmCodec
codec = record { decode_header = λ h. true; decode_message = λ m. some none }
