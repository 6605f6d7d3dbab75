-- ===== src/Backend/Router/Choose/Sound.antt =====
-- `Resolve`: what every decision guarantees, and what a concurrent `ClearContext` does to it.
use cofiswarm_dispatch.Prelude.{
  ◌≤◌, Text, codes, text_eq, text_eq_iff, is_empty, Bool, true, false, Option, none, some, [], ◌≡◌,
  ◌⊎◌, inl, inr, refl, arith, Bool-cases, ◌∙◌, ◌||◌, if◌then◌else◌, ◌∷◌,
}
use cofiswarm_dispatch.Prelude.Float.{float_of_bits, float_lt}
use cofiswarm_dispatch.Backend.{
  BackendId, llama_metal, python_mlx, name, Agent, supports, engine_default,
}
use cofiswarm_dispatch.Backend.Router.{
  Context, Decision, ProbeStats, Router, should_route, clear_context,
}
use cofiswarm_dispatch.Backend.Router.Choose.{
  make_decision, legacy_decision, pick_auto, faster_probe, resolve_at, resolve, is_auto,
  is_llama_override, is_mlx_override, settle_auto, override, named,
}

-- What holds of a decision for an agent.
pub record IsSound (a : Agent) (d : Decision) : Type 0 where
  pub named_so : d.backend_name ≡ name d.backend
  pub runs : (supports a d.backend ≡ true) ⊎ (d.backend ≡ engine_default a)
  pub fallback_default : (d.used_fallback ≡ false) ⊎ (d.backend ≡ engine_default a)

legacy_decision-IsSound : (a : Agent) → IsSound a (legacy_decision a)
unfolding legacy_decision make_decision
legacy_decision-IsSound a = record { named_so = refl; runs = inr refl; fallback_default = inl refl }

override-IsSound : (a : Agent) (id : BackendId) → IsSound a (override a id)
unfolding override make_decision
override-IsSound a id = ground arith

named-IsSound : (a : Agent) → IsSound a (named a)
unfolding named make_decision legacy_decision
named-IsSound a = ground arith

settle_auto-IsSound :
    (a : Agent) (id : BackendId) (reason : Text) (probed : BackendId)
    → IsSound a (settle_auto a id reason probed)
unfolding settle_auto make_decision
settle_auto-IsSound a id reason probed = ground arith

-- `pickAuto` with a context returns.
pick_auto-some :
    (metal : Bool) (r : Router) (a : Agent)
    → should_route r ≡ true
    → (p : BackendId × Text) × (pick_auto metal r a ≡ some p)
unfolding should_route pick_auto
pick_auto-some metal r a h = go r.ctx refl
  where
    go : (c : Option Context) → r.ctx ≡ c → (p : BackendId × Text) × (pick_auto metal r a ≡ some p)
    go none e = ground arith
    go (some c) e = rw (e, pick_auto) (_, refl)

-- With no change by another goroutine in between, `Resolve` of every router and agent returns: it does
-- not read a nil context. The decision carries the name of its backend; the backend is one that the agent
-- supports, or the default of the agent's engine; and a decision marked as a fallback is that default.
pub resolve_total :
    (metal : Bool) (r : Router) (a : Agent)
    → (d : Decision) × (resolve metal r a ≡ some d) × IsSound a d
unfolding resolve
resolve_total metal r a = elim (Bool-cases (should_route r)) [
  | inl on ↦ rw on (elim (Bool-cases (is_llama_override a)) [
    | inl e ↦ rw e (override a llama_metal, refl, override-IsSound a llama_metal)
    | inr e ↦ rw e (elim (Bool-cases (is_mlx_override a)) [
      | inl f ↦ rw f (override a python_mlx, refl, override-IsSound a python_mlx)
      | inr f ↦ rw f (elim (Bool-cases (is_auto a)) [
        | inl g ↦
            let ((id, reason), some_pick) = pick_auto-some metal r a on in
            rw (g, some_pick)
              (
                settle_auto a id reason (faster_probe r a),
                refl,
                settle_auto-IsSound a id reason (faster_probe r a),
              )
        | inr g ↦ rw g (named a, refl, named-IsSound a)
      ])
    ])
  ])
  | inr off ↦ rw off (legacy_decision a, refl, legacy_decision-IsSound a)
]

-- The empty text and "auto" are no override.
auto_text :
    (s : Text)
    → (is_empty s || text_eq s (codes "auto")) ≡ true
    → ((text_eq s (codes "llama_metal") || text_eq s (codes "llama")) ≡ false)
      × ((text_eq s (codes "python_mlx") || text_eq s (codes "mlx")) ≡ false)
auto_text [] h = unfold text_eq in (refl, refl)
auto_text (c ∷ s) h = rw ((text_eq_iff (c ∷ s) (codes "auto")).0 h) (unfold text_eq in (refl, refl))

auto_not_override :
    (a : Agent) → is_auto a ≡ true → (is_llama_override a ≡ false) × (is_mlx_override a ≡ false)
auto_not_override a h = auto_text a.inference_backend h

-- The branch of `Resolve` that an agent without an override takes.
resolve_at_auto :
    (metal : Bool) (r s t : Router) (a : Agent)
    → should_route r ≡ true
    → is_auto a ≡ true
    → resolve_at metal r s t a ≡ (elim (pick_auto metal s a) [
      | none ↦ none
      | some (id, reason) ↦ some (settle_auto a id reason (faster_probe t a))
    ])
unfolding resolve_at
resolve_at_auto metal r s t a on auto = let (f, g) = auto_not_override a auto in rw (on, f, g, auto)

-- A `ClearContext` of another request between the check and the heuristic makes `Resolve` of an agent
-- without an override dereference a nil context, whatever the router and the probes are.
resolve_at-clear_context :
    (metal : Bool) (r t : Router) (a : Agent)
    → should_route r ≡ true
    → is_auto a ≡ true
    → resolve_at metal r (clear_context r) t a ≡ none
resolve_at-clear_context metal r t a on auto =
    rw (resolve_at_auto metal r (clear_context r) t a on auto)
      (unfold pick_auto clear_context in refl)

-- Both backends have been measured at least twice, and each average is below the initial 1e18 ms.
pub record AreMeasured (r : Router) (llama mlx : ProbeStats) : Type 0 where
  pub llama_at : r.probe llama_metal ≡ some llama
  pub mlx_at : r.probe python_mlx ≡ some mlx
  pub llama_twice : 2 ≤ llama.samples
  pub mlx_twice : 2 ≤ mlx.samples
  pub llama_finite : float_lt llama.ema_ms (float_of_bits 0x43ABC16D674EC800) ≡ true

faster_probe_measured :
    (r : Router) (a : Agent) (llama mlx : ProbeStats)
    → AreMeasured r llama mlx
    → supports a llama_metal ≡ true
    → supports a python_mlx ≡ true
    → faster_probe r a ≡ (if float_lt mlx.ema_ms llama.ema_ms then python_mlx else llama_metal)
unfolding faster_probe
faster_probe_measured r a llama mlx m l x = ground (arith, m.llama_at, m.mlx_at)

settle_auto_both :
    (a : Agent) (id : BackendId) (reason : Text) (probed : BackendId)
    → supports a llama_metal ≡ true
    → supports a python_mlx ≡ true
    → ((settle_auto a id reason probed).backend ≡ probed)
      × ((settle_auto a id reason probed).used_fallback ≡ false)
unfolding settle_auto make_decision
settle_auto_both a llama_metal reason llama_metal l x = ground arith
settle_auto_both a llama_metal reason python_mlx l x = ground arith
settle_auto_both a python_mlx reason llama_metal l x = ground arith
settle_auto_both a python_mlx reason python_mlx l x = ground arith

-- Where routing is on, an agent without an override that runs on both backends, once each has two samples at
-- least and the average latency of llama is below 1e18 ms, is sent to the one with the lower average latency (to
-- llama where neither is lower), whatever the heuristics say, and that is no fallback.
pub resolve_fastest :
    (metal : Bool) (r : Router) (a : Agent) (llama mlx : ProbeStats)
    → should_route r ≡ true
    → is_auto a ≡ true
    → supports a llama_metal ≡ true
    → supports a python_mlx ≡ true
    → AreMeasured r llama mlx
    → (d : Decision) × (resolve metal r a ≡ some d)
      × (d.backend ≡ (if float_lt mlx.ema_ms llama.ema_ms then python_mlx else llama_metal))
      × (d.used_fallback ≡ false)
unfolding resolve
resolve_fastest metal r a llama mlx on auto l x m =
    let ((id, reason), picked) = pick_auto-some metal r a on in
    let (at, clean) = settle_auto_both a id reason (faster_probe r a) l x in
    (
      settle_auto a id reason (faster_probe r a),
      rw (resolve_at_auto metal r r r a on auto, picked),
      at ∙ faster_probe_measured r a llama mlx m l x,
      clean,
    )
