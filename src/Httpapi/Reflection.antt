-- ===== src/Httpapi/Reflection.antt =====
-- internal/httpapi/reflect_tick.go: whether the reflection starts, and with which agent. `parse_duration` is
-- `time.ParseDuration`; starting the scheduler is given by its options.
pub mod Start
pub mod Adapters
use cofiswarm_dispatch.Prelude.{
  ℕ, zero, suc, Text, codes, text_eq, is_empty, Bool, true, false, not, ◌&&◌, Option, none, some,
  [], ◌++◌, if◌then◌else◌,
}
use cofiswarm_dispatch.Prelude.Decimal.{ℤ, pos, negsuc, atoi}
use cofiswarm_dispatch.Backend.Router.{Env}
use cofiswarm_dispatch.Agent.{Agent}
use cofiswarm_dispatch.History
use cofiswarm_dispatch.Rag.{Failure, Settings, put_memory}
use cofiswarm_dispatch.Registry.{Registry, Fetched, failed, fetched, fetch_agent, put_agent}
use cofiswarm_dispatch.Httpapi.{Server, Deps, World, rag_service, registry_service}

unfoldable pub env_truthy : Env → Text → Bool
env_truthy env name =
    let v = env name in
    not (is_empty v) && not (text_eq v (codes "0")) && not (text_eq v (codes "false"))

unfoldable pub env_str : Env → (name def : Text) → Text
env_str env name def = let v = env name in if is_empty v then def else v

or_int : ℤ → Option ℤ → ℤ
or_int def none = def
or_int def (some n) = n

-- What does not read as a number is the default.
unfoldable pub env_int : Env → Text → ℤ → ℤ
unfolding or_int
env_int env name def = let v = env name in if is_empty v then def else or_int def (atoi v)

unfoldable pub env_duration : (parse_duration : Text → Option ℤ) → Env → Text → ℤ → ℤ
unfolding or_int
env_duration parse_duration env name def =
    let v = env name in if is_empty v then def else or_int def (parse_duration v)

abbrev pub is_zero : ℤ → Bool
is_zero (pos zero) = true
is_zero _ = false

-- `var a agent.Agent`.
unfoldable pub no_agent : Agent
no_agent = record {
  name = [];
  engine = [];
  backend = [];
  model = [];
  tags = [];
  inference_backend = [];
  port = pos 0;
  description = [];
  system_prompt = [];
  max_input_tokens = pos 0;
  max_output_tokens = pos 0;
  max_tokens = pos 0;
  context_window = pos 0;
  read_timeout_secs = pos 0;
  use_rag = false;
  rag_top_k = pos 0;
  rag_kinds = [];
}

-- The environment over what the registry gave.
unfoldable pub overlay : Env → (name : Text) → Agent → Agent
overlay env name a =
    let p = env_int env (codes "COFISWARM_REFLECT_AGENT_PORT") (pos 0) in
    record a {
      name = name;
      port = if is_zero p then a.port else p;
      engine = env_str env (codes "COFISWARM_REFLECT_ENGINE") a.engine;
      model = env_str env (codes "COFISWARM_REFLECT_MODEL") a.model;
      backend = env_str env (codes "COFISWARM_REFLECT_BACKEND") a.backend;
    }

or_no_agent : Fetched Agent → Agent
unfolding no_agent
or_no_agent (failed e) = no_agent
or_no_agent (fetched a) = a

-- The options of the scheduler that is started; the interval is in nanoseconds.
pub record Started : Type 0 where
  pub reflector : Agent
  pub interval : ℤ
  pub max_episodes : ℤ
  pub max_chars : ℤ

unfoldable pub has_no_history : Option History.Store → Bool
has_no_history none = true
has_no_history (some h) = false

module _ (deps : Deps) where
  unfoldable pub resolve_reflector : Env → World deps → Agent × World deps
  unfolding or_no_agent no_agent
  resolve_reflector env w =
      let name = env_str env (codes "COFISWARM_REFLECT_NAME") (codes "reflector") in
      let (found, w') = fetch_agent (registry_service deps) env name w in
      if env_truthy env (codes "COFISWARM_REFLECT_NO_REGISTRY")
      then (overlay env name no_agent, w)
      else (overlay env name (or_no_agent found), w')

  -- The reflector is registered unless this is turned off; an error is only logged.
  self_register : Env → Agent → World deps → World deps
  self_register env a w =
      if env_truthy env (codes "COFISWARM_REFLECT_NO_SELF_REGISTER")
      then w
      else (put_agent (registry_service deps) env a w).1

  -- `none` where it does not start.
  unfoldable pub start_reflection :
      (parse_duration : Text → Option ℤ) → Env → Server → World deps → Option Started × World deps
  unfolding has_no_history self_register
  start_reflection parse_duration env s w =
      let (a, w') = resolve_reflector env w in
      let started : Started = record {
        reflector = a;
        interval =
            env_duration parse_duration env (codes "COFISWARM_REFLECT_INTERVAL") (pos 900000000000);
        max_episodes = env_int env (codes "COFISWARM_REFLECT_MAX_EPISODES") (pos 50);
        max_chars = env_int env (codes "COFISWARM_REFLECT_MAX_CHARS") (pos 0);
      } in
      if not (env_truthy env (codes "COFISWARM_REFLECT_ENABLED"))
      then (none, w)
      else if has_no_history s.history
      then (none, w)
      else if is_empty s.rag_cfg.retrieve_url
      then (none, w)
      else if is_zero a.port
      then (none, w')
      else (some started, self_register env a w')

  -- `ragMemorySink.Put`.
  unfoldable pub put_lesson :
      Settings → (kind lesson memory_id : Text) → World deps → Option Failure × World deps
  put_lesson cfg kind lesson memory_id w = put_memory (rag_service deps) cfg kind lesson memory_id w
