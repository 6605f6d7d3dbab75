-- ===== src/Backend/Router/Record/Last.antt =====
-- The last decision of each agent, as the endpoints show it, and when it is forgotten.
use cofiswarm_dispatch.Prelude.{
  Text, text_eq, text_eq_iff, is_empty, some, List, [], ◌∷◌, put, get, if◌then◌else◌, ◌≡◌, refl,
  arith,
}
use cofiswarm_dispatch.Backend.Router.{Decision, Router}
use cofiswarm_dispatch.Backend.Router.Record.{
  Snapshot, snapshot_of, snapshot_decisions, record_decision,
}

abbrev pub shown : Decision → Snapshot
shown d = record { backend = d.backend_name; reason = d.reason; fallback = d.used_fallback }

get-put_snapshot :
    (k j : Text) (d : Decision) (m : List (Text × Decision))
    → get j (snapshot_of (put k d m))
      ≡ (if text_eq k j then some (shown d) else get j (snapshot_of m))
unfolding snapshot_of
get-put_snapshot k j d [] = refl
get-put_snapshot k j d ((i, e) ∷ m) =
    ground (arith, get-put_snapshot k j d m, text_eq_iff i k, text_eq_iff k j, text_eq_iff i j)

-- After `RecordDecision` for a named agent the snapshot shows that decision for it, and for every other
-- agent what it showed before; for an agent with no name nothing changes.
pub get-snapshot_decisions-record_decision :
    (agent j : Text) (d : Decision) (r : Router)
    → get j (snapshot_decisions (record_decision agent d r)) ≡ (
        if is_empty agent
        then get j (snapshot_decisions r)
        else if text_eq agent j
        then some (shown d)
        else get j (snapshot_decisions r))
unfolding snapshot_decisions record_decision
get-snapshot_decisions-record_decision [] j d r = refl
get-snapshot_decisions-record_decision (c ∷ agent) j d r =
    get-put_snapshot (c ∷ agent) j d r.last_decisions
