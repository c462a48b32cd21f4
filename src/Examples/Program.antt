-- ===== src/Examples/Program.antt =====
-- The program at three events: a new slice, a message of RMR, and the deletion of the slice.
use mathlib.Core.List.{Nodup}
use nexran.Base.{List, [], ◌∷◌}
use nexran.Base.Int.{pos}
use nexran.App.Types.{new_app}
use nexran.App.Dispatch.{MessageType}
use nexran.App.Linked.{IsConsistent}
use nexran.App.Trace.Tables.{IsTracked}
use nexran.App.Trace.Ids.{ids}
use nexran.Rest.Routes.{post_slice, delete_slice}
use nexran.Program.{Event, request, message, react_all, react_all_lem}
use nexran.Examples.{json, platform, thousandths, fast_is_named}
use nexran.Examples.Rest.{version, new_slice}
use nexran.Examples.Trace.{decoders}

abbrev events : List (Event platform json thousandths decoders version)
events =
    request post_slice new_slice
    ∷ message (pos 9) MessageType.sub_resp (1 ∷ []) (pos 7) "123.2"
    ∷ request delete_slice (record new_slice { name = "fast" })
    ∷ []

react_all_lem_example :
    let app = react_all platform json thousandths decoders version events new_app in
    IsConsistent app × IsTracked app.e2ap × Nodup (ids app.e2ap.outbox)
react_all_lem_example =
    react_all_lem platform json thousandths decoders version events
      (fast_is_named, (tt, (fast_is_named, tt)))
