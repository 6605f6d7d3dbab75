-- ===== src/Agent/Client/Quiet.antt =====
-- A call of an agent outside a dispatch.
use cofiswarm_dispatch.Prelude.{
  ℕ, zero, suc, Text, Bool, not, ◌&&◌, ◌||◌, if◌then◌else◌, ◌≡◌, refl, sym, subst, arith,
  Bool-cases, inl, inr,
}
use cofiswarm_dispatch.Prelude.Float.{FloatOps}
use cofiswarm_dispatch.Prelude.Utf8.{to_valid_utf8}
use cofiswarm_dispatch.Backend.{BackendId}
use cofiswarm_dispatch.Backend.Router.{Router, Decision, should_route}
use cofiswarm_dispatch.Backend.Router.Quiet.{
  IsQuiet, record_probe_sample-IsQuiet, should_route_quiet,
}
use cofiswarm_dispatch.Backend.Router.Record.{record_decision}
use cofiswarm_dispatch.Backend.Router.Choose.Sound.{resolve_total}
use cofiswarm_dispatch.Agent.{
  Agent, to_backend, with_engine, materialized_engine, probe_id, cap_panics,
}
use cofiswarm_dispatch.Agent.Client.{
  Net, Client, Reply, no_connection, answer, AttemptResult, no_attempt, role_prompt, request_of,
  read_reply, probe_reply, complete_once, round, attempts, call_routed, call_with_system,
}

module _ (net : Net) (ops : FloatOps) where
  probe_reply-IsQuiet :
      (a : Agent) (reply : Reply) (out : AttemptResult) (r : Router)
      → IsQuiet r
      → IsQuiet (probe_reply net ops a reply out r)
  unfolding probe_reply
  probe_reply-IsQuiet a (no_connection e) out r q = q
  probe_reply-IsQuiet a (answer status body ms) out r q = elim (Bool-cases out.ok) [
    | inl e ↦ rw e (record_probe_sample-IsQuiet ops (probe_id a.engine) ms r q)
    | inr e ↦ rw e q
  ]

  complete_once-IsQuiet :
      (c : Client) (a : Agent) (s p : Text) (r : Router) (w : net.World)
      → IsQuiet r
      → IsQuiet (complete_once net ops c a s p r w).1
  unfolding complete_once
  complete_once-IsQuiet c a s p r w q =
      let (reply, w') = net.post (request_of c a s p) w in
      probe_reply-IsQuiet a reply (read_reply net ops c a reply) r q

  round-IsQuiet :
      (c : Client) (a : Agent) (primary : BackendId) (s p : Text) (r : Router) (w : net.World)
      → IsQuiet r
      → IsQuiet (round net ops c a primary s p r w).1
  unfolding round
  round-IsQuiet c a primary s p r w q =
      let work = with_engine a (materialized_engine primary) in
      let (attempt, r', w') = complete_once net ops c work s p r w in
      let q' : IsQuiet r' = complete_once-IsQuiet c work s p r w q in
      elim (Bool-cases (not attempt.ok && attempt.retryable && should_route r')) [
        | inl e ↦ absurd (ground (arith, should_route_quiet r' q'))
        | inr e ↦ rw e q'
      ]

  attempts-IsQuiet :
      (n : ℕ) (c : Client) (a : Agent) (primary : BackendId) (s p : Text) (last : AttemptResult)
      (r : Router) (w : net.World)
      → IsQuiet r
      → IsQuiet (attempts net ops n c a primary s p (last, r, w)).1
  unfolding attempts
  attempts-IsQuiet zero c a primary s p last r w q = q
  attempts-IsQuiet (suc n) c a primary s p last r w q =
      let (attempt, r', w') = round net ops c a primary s p r w in
      let q' : IsQuiet r' = round-IsQuiet c a primary s p r w q in
      elim (Bool-cases (attempt.ok || not attempt.retryable)) [
        | inl e ↦ rw e q'
        | inr e ↦ rw e (attempts-IsQuiet n c a primary s p attempt r' w' q')
      ]

  -- A call outside a dispatch, on any network: it records no decision and leaves no context.
  pub call_routed-IsQuiet :
      (c : Client) (a : Agent) (s p : Text) (d : Decision) (r : Router) (w : net.World)
      → IsQuiet r
      → IsQuiet (call_routed net ops c a s p d r w).1
  unfolding call_routed
  call_routed-IsQuiet c a s p d r w q =
      let sys = to_valid_utf8 (role_prompt a s) in
      let user = to_valid_utf8 p in
      let r' = if should_route r then record_decision a.name d r else r in
      let same : r' ≡ r = rw (should_route_quiet r q) refl in
      elim (Bool-cases (cap_panics a.max_input_tokens)) [
        | inl bad ↦ rw (bad, same) q
        | inr good ↦ rw good (
            subst (λ t. IsQuiet (attempts net ops 2 c a d.backend sys user (no_attempt, t, w)).1)
              (sym same) (attempts-IsQuiet 2 c a d.backend sys user no_attempt r w q))
      ]

  -- A call of an agent leaves the router quiet, also where it panics.
  pub call_with_system-IsQuiet :
      (metal : Bool) (c : Client) (a : Agent) (s p : Text) (r : Router) (w : net.World)
      → IsQuiet r
      → IsQuiet (call_with_system net ops metal c a s p r w).1
  unfolding call_with_system
  call_with_system-IsQuiet metal c a s p r w q =
      let (d, resolved, _) = resolve_total metal r (to_backend a) in
      rw (resolved, call_with_system) (call_routed-IsQuiet c a s p d r w q)
