-- ===== src/Backend/Router.antt =====
-- internal/backend/router.go: the router's state, its configuration and its context.
pub mod Choose
pub mod Record
pub mod Quiet
pub mod Tests
use cofiswarm_dispatch.Prelude.{
  ℕ, suc, ◌+◌, ◌-◌, Text, codes, text_eq, is_empty, Bool, true, false, not, ◌&&◌, ◌||◌, Option,
  none, some, List, [], ◌∷◌, ◌++◌, length, drop, ltb, if◌then◌else◌,
}
use cofiswarm_dispatch.Json.{
  Value, null, yes_value, no_value, int, float, text, array, object, Fields, lookup, as_object,
}
use cofiswarm_dispatch.Prelude.Float.{
  Float64, FloatOps, float_of_bits, float_lt, float_le, zero_float,
}
use cofiswarm_dispatch.Backend.{
  BackendId, llama_metal, python_mlx, id_eq, name, from_name, Agent, has_tag, supports,
  engine_default,
}

pub record Context : Type 0 where
  pub mode_name : Text
  pub sequential_mode : Bool
  pub kv_pressure : Float64

pub record Decision : Type 0 where
  pub backend : BackendId
  pub backend_name : Text
  pub reason : Text
  pub used_fallback : Bool

pub record ProbeStats : Type 0 where
  pub samples : ℕ
  pub ema_ms : Float64

pub record LoggedDecision : Type 0 where
  pub agent : Text
  pub backend_name : Text
  pub reason : Text
  pub used_fallback : Bool

-- The probes are a map from the two backends.
pub record Router : Type 0 where
  pub enabled : Bool
  pub llama_priority : Text
  pub ctx : Option Context
  pub last_decisions : List (Text × Decision)
  pub decision_log : List LoggedDecision
  pub probe : BackendId → Option ProbeStats

unfoldable pub init : Router
init = record {
  enabled = false;
  llama_priority = codes "normal";
  ctx = none;
  last_decisions = [];
  decision_log = [];
  probe = λ id. none;
}

-- `os.Getenv`: an unset variable reads as the empty text.
abbrev pub Env : Type 0
Env = Text → Text

unfoldable pub env_truthy : Env → Text → Bool
env_truthy env key =
    let v = env key in
    not (is_empty v) && not (text_eq v (codes "0")) && not (text_eq v (codes "false"))

abbrev env_routing : Text
env_routing = codes "COFISWARM_BACKEND_ROUTING"

abbrev env_priority : Text
env_priority = codes "COFISWARM_LLAMA_METAL_PRIORITY"

unfoldable pub nested_object : Fields → List Text → Option Fields
nested_object m [] = some m
nested_object m (k ∷ keys) = elim (as_object (lookup k m)) [
  | none ↦ none
  | some inner ↦ nested_object inner keys
]

-- A value of another type than the code wants is only logged.
apply_enabled : Option Value → Router → Router
apply_enabled (some yes_value) r = record r { enabled = true }
apply_enabled _ r = r

apply_priority : Option Value → Router → Router
apply_priority (some (text s)) r = record r { llama_priority = s }
apply_priority _ r = r

apply_block : Option Fields → Router → Router
unfolding apply_enabled apply_priority
apply_block none r = r
apply_block (some br) r =
    apply_priority (lookup (codes "llama_metal_priority") br)
      (apply_enabled (lookup (codes "enabled") br) r)

-- A nil document is the empty one.
unfoldable pub configure_from_startup : Env → (startup : Fields) → Router → Router
unfolding apply_block env_truthy nested_object
configure_from_startup env startup r =
    let r' =
      apply_block (nested_object startup (codes "coordinator" ∷ codes "backend_routing" ∷ []))
        (record r { enabled = env_truthy env env_routing }) in
    let pri = env env_priority in if is_empty pri then r' else record r' { llama_priority = pri }

-- `Enabled`, `DecisionLog`.
unfoldable pub is_enabled : Router → Bool
is_enabled r = r.enabled

unfoldable pub logged_decisions : Router → List LoggedDecision
logged_decisions r = r.decision_log

unfoldable pub apple_silicon_metal_available : (goos goarch : Text) → Bool
apple_silicon_metal_available goos goarch =
    text_eq goos (codes "darwin") && text_eq goarch (codes "arm64")

unfoldable pub set_context : Context → Router → Router
set_context c r = record r { ctx = some c }

unfoldable pub clear_context : Router → Router
clear_context r = record r { ctx = none; last_decisions = [] }

eligible : Option Context → Bool
eligible none = false
eligible (some c) = c.sequential_mode && not (text_eq c.mode_name (codes "flat"))

unfoldable pub should_route : Router → Bool
unfolding eligible
should_route r = r.enabled && eligible r.ctx
