-- ===== src/Backend/Router/Quiet.antt =====
-- A router between dispatches: it has no context and no current decisions.
use cofiswarm_dispatch.Prelude.{false, none, [], ◌≡◌, refl, arith}
use cofiswarm_dispatch.Prelude.Float.{Float64, FloatOps}
use cofiswarm_dispatch.Backend.{BackendId}
use cofiswarm_dispatch.Backend.Router.{Router, clear_context, should_route}
use cofiswarm_dispatch.Backend.Router.Record.{record_probe_sample}

pub record IsQuiet (r : Router) : Type 0 where
  pub no_context : r.ctx ≡ none
  pub no_decisions : r.last_decisions ≡ []

pub clear_context-IsQuiet : (r : Router) → IsQuiet (clear_context r)
unfolding clear_context
clear_context-IsQuiet r = record { no_context = refl; no_decisions = refl }

pub record_probe_sample-IsQuiet :
    (ops : FloatOps) (id : BackendId) (ms : Float64) (r : Router)
    → IsQuiet r
    → IsQuiet (record_probe_sample ops id ms r)
unfolding record_probe_sample
record_probe_sample-IsQuiet ops id ms r q = ground arith

-- Nothing is routed, so no call records a decision.
pub should_route_quiet : (r : Router) → IsQuiet r → should_route r ≡ false
unfolding should_route
should_route_quiet r q = rw q.no_context (ground arith)
