-- ===== src/Backend/Router/Choose.antt =====
-- internal/backend/router.go: `Resolve` and what it calls.
-- `Resolve` takes the lock three times. Its steps are given the router that each of them finds, so
-- that a change by another goroutine in between can be told; `none` is the panic on a nil context.
pub mod Sound
use cofiswarm_dispatch.Prelude.{
  ℕ, suc, ◌+◌, ◌-◌, ◌<◌, ◌≤◌, Text, codes, text_eq, text_eq_iff, is_empty, Bool, true, false, not,
  ◌&&◌, ◌||◌, Option, none, some, List, [], ◌∷◌, ◌++◌, length, drop, ltb, if◌then◌else◌, ◌≡◌, ◌≢◌,
  ◌⊎◌, inl, inr, refl, arith,
}
use cofiswarm_dispatch.Prelude.Float.{
  Float64, FloatOps, float_of_bits, float_lt, float_le, zero_float,
}
use cofiswarm_dispatch.Backend.{
  BackendId, llama_metal, python_mlx, id_eq, name, from_name, Agent, has_tag, supports,
  engine_default,
}
use cofiswarm_dispatch.Backend.Router.{Context, Decision, ProbeStats, Router, should_route}

unfoldable pub make_decision : BackendId → Text → Bool → Decision
make_decision id reason fallback = record {
  backend = id;
  backend_name = name id;
  reason = reason;
  used_fallback = fallback;
}

unfoldable pub legacy_decision : Agent → Decision
unfolding make_decision
legacy_decision a = make_decision (engine_default a) (codes "legacy_engine") false

-- The heuristic ladder, under a context.
unfoldable pub pick : (metal high : Bool) → Context → Agent → BackendId × Text
pick metal high c a =
    if float_lt (float_of_bits 0x3FE6666666666666) c.kv_pressure && supports a llama_metal
    then (llama_metal, codes "kv_pressure_llama_prefix_cache")
    else if metal
        && c.sequential_mode
        && supports a llama_metal
        && (high
            || has_tag a (codes "coding")
            || has_tag a (codes "planning")
            || has_tag a (codes "review"))
    then (llama_metal, codes "sequential_apple_silicon")
    else if supports a python_mlx && (text_eq a.engine (codes "mlx") || has_tag a (codes "vision"))
    then (python_mlx, codes "mlx_unified_memory")
    else if supports a llama_metal
    then (llama_metal, codes "default_llama_metal")
    else (python_mlx, codes "default_python_mlx")

-- `pickAuto` reads the context and the priority; `metal` is the host's `appleSiliconMetalAvailable`.
unfoldable pub pick_auto : Bool → Router → Agent → Option (BackendId × Text)
pick_auto metal r a = elim r.ctx [
  | none ↦ none
  | some c ↦ some (pick metal (text_eq r.llama_priority (codes "high")) c a)
]

-- One round of the loop over the backends: the best so far, and its latency.
try_probe : Router → Agent → BackendId × Float64 → BackendId → BackendId × Float64
try_probe r a (best, best_ms) id =
    if not (supports a id) then (best, best_ms) else elim (r.probe id) [
      | none ↦ (best, best_ms)
      | some s ↦
          if ltb s.samples 2
          then (best, best_ms)
          else if float_lt s.ema_ms best_ms
          then (id, s.ema_ms)
          else (best, best_ms)
    ]

unfoldable pub faster_probe : Router → Agent → BackendId
unfolding try_probe
faster_probe r a =
    (try_probe r a (try_probe r a (engine_default a, float_of_bits 0x43ABC16D674EC800) llama_metal)
      python_mlx).0

-- The case of an agent with no override, after `pickAuto`.
settle_auto : Agent → BackendId → Text → BackendId → Decision
settle_auto a id reason probed =
    let use_probe = not (id_eq probed id) && supports a probed in
    let id' = if use_probe then probed else id in
    let reason' = if use_probe then reason ++ codes "+probe" else reason in
    if not (supports a id')
    then make_decision (engine_default a) (codes "auto_unsupported_fallback") true
    else make_decision id' reason' false

override : Agent → BackendId → Decision
override a id =
    if supports a id
    then make_decision id (codes "agent_override") false
    else make_decision (engine_default a) (codes "override_unsupported_fallback") true

named : Agent → Decision
named a = elim (from_name a.inference_backend) [
  | none ↦ legacy_decision a
  | some id ↦
      if supports a id then make_decision id (codes "named_override") false else legacy_decision a
]

abbrev pub is_llama_override : Agent → Bool
is_llama_override a =
    text_eq a.inference_backend (codes "llama_metal") || text_eq a.inference_backend (codes "llama")

abbrev pub is_mlx_override : Agent → Bool
is_mlx_override a =
    text_eq a.inference_backend (codes "python_mlx") || text_eq a.inference_backend (codes "mlx")

abbrev pub is_auto : Agent → Bool
is_auto a = is_empty a.inference_backend || text_eq a.inference_backend (codes "auto")

-- `Resolve`, where the check, the heuristic and the probes find the routers `r`, `s` and `t`.
unfoldable pub resolve_at : Bool → (r s t : Router) → Agent → Option Decision
unfolding settle_auto override named make_decision legacy_decision
resolve_at metal r s t a =
    if not (should_route r)
    then some (legacy_decision a)
    else if is_llama_override a
    then some (override a llama_metal)
    else if is_mlx_override a
    then some (override a python_mlx)
    else if is_auto a
    then elim (pick_auto metal s a) [
      | none ↦ none
      | some (id, reason) ↦ some (settle_auto a id reason (faster_probe t a))
    ]
    else some (named a)

-- `Resolve` with no change in between.
unfoldable pub resolve : Bool → Router → Agent → Option Decision
unfolding resolve_at
resolve metal r a = resolve_at metal r r r a

unfoldable pub materialize : Agent → Decision → Agent
materialize a d = record a {
  engine = elim d.backend [ python_mlx ↦ codes "mlx" | _ ↦ codes "llama" ];
}
