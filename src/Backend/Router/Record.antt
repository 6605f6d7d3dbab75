-- ===== src/Backend/Router/Record.antt =====
-- internal/backend/router.go: what the router remembers of decisions and of latencies.
pub mod Log
pub mod Last
use cofiswarm_dispatch.Prelude.{
  ℕ, suc, ◌+◌, ◌-◌, ◌<◌, ◌≤◌, Text, codes, text_eq, text_eq_iff, is_empty, Bool, true, false, not,
  ◌&&◌, ◌||◌, Option, none, some, List, [], ◌∷◌, ◌++◌, length, drop, ltb, if◌then◌else◌, put, ◌≡◌,
  ◌≢◌, ◌⊎◌, inl, inr, refl, arith,
}
use cofiswarm_dispatch.Prelude.Float.{
  Float64, FloatOps, float_of_bits, float_lt, float_le, zero_float,
}
use cofiswarm_dispatch.Backend.{
  BackendId, llama_metal, python_mlx, id_eq, name, from_name, Agent, has_tag, supports,
  engine_default,
}
use cofiswarm_dispatch.Backend.Router.{Decision, ProbeStats, LoggedDecision, Router}

-- The last 256 entries.
unfoldable pub cap_log : List LoggedDecision → List LoggedDecision
cap_log log = if ltb 256 (length log) then drop (length log - 256) log else log

unfoldable pub log_entry : Text → Decision → LoggedDecision
log_entry agent d = record {
  agent = agent;
  backend_name = d.backend_name;
  reason = d.reason;
  used_fallback = d.used_fallback;
}

unfoldable pub record_decision : Text → Decision → Router → Router
unfolding cap_log log_entry
record_decision agent d r = if is_empty agent then r else record r {
  last_decisions = put agent d r.last_decisions;
  decision_log = cap_log (r.decision_log ++ log_entry agent d ∷ []);
}

module _ (ops : FloatOps) where
  -- A new sample after the ones before it.
  unfoldable pub fold_sample : Float64 → Option ProbeStats → ProbeStats
  fold_sample ms none = record { samples = 1; ema_ms = ms }
  fold_sample ms (some s) = record {
    samples = s.samples + 1;
    ema_ms =
        if ltb 0 s.samples
        then ops.add (ops.mul (float_of_bits 0x3FE999999999999A) s.ema_ms)
            (ops.mul (float_of_bits 0x3FC999999999999A) ms)
        else ms;
  }

  unfoldable pub record_probe_sample : BackendId → Float64 → Router → Router
  unfolding fold_sample
  record_probe_sample id ms r = if float_le ms zero_float then r else record r {
    probe = λ j. if id_eq j id then some (fold_sample ms (r.probe id)) else r.probe j;
  }

-- What the observability endpoints show of a decision.
pub record Snapshot : Type 0 where
  pub backend : Text
  pub reason : Text
  pub fallback : Bool

snapshot_of : List (Text × Decision) → List (Text × Snapshot)
snapshot_of [] = []
snapshot_of ((k, d) ∷ m) =
    (k, record { backend = d.backend_name; reason = d.reason; fallback = d.used_fallback })
    ∷ snapshot_of m

unfoldable pub snapshot_decisions : Router → List (Text × Snapshot)
unfolding snapshot_of
snapshot_decisions r = snapshot_of r.last_decisions
