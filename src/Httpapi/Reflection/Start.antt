-- ===== src/Httpapi/Reflection/Start.antt =====
-- `StartReflection`: it fails open on the registry.
use cofiswarm_dispatch.Prelude.{
  Text, codes, is_empty, true, false, Option, some, ◌≡◌, refl, Bool-cases, inl, inr,
}
use cofiswarm_dispatch.Prelude.Decimal.{ℤ, pos}
use cofiswarm_dispatch.Backend.Router.{Env}
use cofiswarm_dispatch.Agent.{Agent}
use cofiswarm_dispatch.History
use cofiswarm_dispatch.Httpapi.{Server, Deps, World}
use cofiswarm_dispatch.Httpapi.Reflection.{
  env_truthy, env_str, env_int, is_zero, overlay, Started, resolve_reflector, start_reflection,
  has_no_history,
}

abbrev pub port_key : Text
port_key = codes "COFISWARM_REFLECT_AGENT_PORT"

abbrev pub reflector_name : Env → Text
reflector_name env = env_str env (codes "COFISWARM_REFLECT_NAME") (codes "reflector")

-- What the environment fixes, whatever the registry answers.
IsFixed : Env → Agent → Type 0
IsFixed env a = (a.port ≡ env_int env port_key (pos 0)) × (a.name ≡ reflector_name env)

overlay-IsFixed :
    (env : Env) (a : Agent)
    → is_zero (env_int env port_key (pos 0)) ≡ false
    → IsFixed env (overlay env (reflector_name env) a)
unfolding overlay IsFixed
overlay-IsFixed env a given = rw given (refl, refl)

module _ (deps : Deps) where
  resolve_reflector-IsFixed :
      (env : Env) (w : World deps)
      → is_zero (env_int env port_key (pos 0)) ≡ false
      → IsFixed env (resolve_reflector deps env w).0
  unfolding resolve_reflector
  resolve_reflector-IsFixed env w given =
      elim (Bool-cases (env_truthy env (codes "COFISWARM_REFLECT_NO_REGISTRY"))) [
        | inl e ↦ rw e (overlay-IsFixed env _ given)
        | inr e ↦ rw e (overlay-IsFixed env _ given)
      ]

  -- If reflection is enabled, there are a history and an address for lessons, and the environment gives a port
  -- that is not 0, then the reflection starts, with that port and the name that the environment gives or
  -- `reflector`, whatever the registry answers or does not answer.
  pub start_reflection-Started :
      (parse_duration : Text → Option ℤ) (env : Env) (s : Server) (w : World deps)
      (h : History.Store)
      → env_truthy env (codes "COFISWARM_REFLECT_ENABLED") ≡ true
      → s.history ≡ some h
      → is_empty s.rag_cfg.retrieve_url ≡ false
      → is_zero (env_int env port_key (pos 0)) ≡ false
      → (started : Started) × ((start_reflection deps parse_duration env s w).0 ≡ some started)
        × (started.reflector.port ≡ env_int env port_key (pos 0))
        × (started.reflector.name ≡ reflector_name env)
  unfolding start_reflection IsFixed has_no_history
  start_reflection-Started parse_duration env s w h enabled there url given =
      let (port_so, name_so) = resolve_reflector-IsFixed env w given in
      let (a, w') = resolve_reflector deps env w in
      let on : is_zero a.port ≡ false = rw port_so given in
      rw (enabled, there, url, on) (_, refl, port_so, name_so)
