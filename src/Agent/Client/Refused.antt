-- ===== src/Agent/Client/Refused.antt =====
-- `CallWithSystem` on a network that refuses every connection.
use cofiswarm_dispatch.Prelude.{
  ℕ, zero, suc, Text, codes, Bool, true, false, none, some, ◌++◌, ◌∙◌, if◌then◌else◌, ◌≡◌, refl,
  Bool-cases, inl, inr,
}
use cofiswarm_dispatch.Prelude.Float.{FloatOps}
use cofiswarm_dispatch.Prelude.Utf8.{to_valid_utf8}
use cofiswarm_dispatch.Backend.{BackendId, supports}
use cofiswarm_dispatch.Backend.Router.{Router, should_route}
use cofiswarm_dispatch.Backend.Router.Record.{record_decision}
use cofiswarm_dispatch.Backend.Router.Choose.Sound.{resolve_total}
use cofiswarm_dispatch.Agent.{
  Agent, to_backend, with_engine, materialized_engine, HasSmallCap, cap_panics-HasSmallCap,
}
use cofiswarm_dispatch.Agent.Client.{
  Net, Client, Request, AttemptResult, no_connection, no_attempt, other_backend, role_prompt,
  request_of, complete_once, try_fallback, round, attempts, call_routed, call_with_system,
  read_reply,
}

abbrev pub connection_error : Agent → Text → Text
connection_error a e = codes "Connection Error (" ++ a.name ++ codes "): " ++ e

module _ (net : Net) (ops : FloatOps) (e : Text)
    (refused : (req : Request) (w : net.World) → (net.post req w).0 ≡ no_connection e) where
  abbrev failed_attempt : Agent → AttemptResult
  failed_attempt a = record { text = connection_error a e; ok = false; retryable = true }

  complete_once-refused :
      (c : Client) (a : Agent) (s p : Text) (r : Router) (w : net.World)
      → (complete_once net ops c a s p r w).0 ≡ failed_attempt a
  unfolding complete_once read_reply
  complete_once-refused c a s p r w = rw (refused (request_of c a s p) w)

  refused_on :
      (a : Agent) (id : BackendId)
      → failed_attempt (with_engine a (materialized_engine id)) ≡ failed_attempt a
  unfolding with_engine
  refused_on a id = refl

  try_fallback-refused :
      (c : Client) (a : Agent) (primary : BackendId) (s p : Text) (r : Router) (w : net.World)
      → (try_fallback net ops c a primary s p r w).0 ≡ none
  unfolding try_fallback
  try_fallback-refused c a primary s p r w =
      elim (Bool-cases (supports (to_backend a) (other_backend primary))) [
        | inl f ↦ rw (
          f,
          complete_once-refused c (with_engine a (materialized_engine (other_backend primary))) s p
              r w,
        )
        | inr f ↦ rw f
      ]

  round-refused :
      (c : Client) (a : Agent) (primary : BackendId) (s p : Text) (r : Router) (w : net.World)
      → (round net ops c a primary s p r w).0 ≡ failed_attempt a
  unfolding round
  round-refused c a primary s p r w =
      let work = with_engine a (materialized_engine primary) in
      let (attempt, r', w') = complete_once net ops c work s p r w in
      let same : attempt ≡ failed_attempt a =
        complete_once-refused c work s p r w ∙ refused_on a primary in
      elim (Bool-cases (should_route r')) [
        | inl on ↦ rw (same, on, try_fallback-refused c a primary s p r' w')
        | inr off ↦ rw (same, off)
      ]

  attempts-refused :
      (n : ℕ) (c : Client) (a : Agent) (primary : BackendId) (s p : Text) (r : Router)
      (w : net.World)
      → (attempts net ops n c a primary s p (failed_attempt a, r, w)).0 ≡ failed_attempt a
  unfolding attempts
  attempts-refused zero c a primary s p r w = refl
  attempts-refused (suc n) c a primary s p r w =
      let (attempt, r', w') = round net ops c a primary s p r w in
      rw (round-refused c a primary s p r w) (attempts-refused n c a primary s p r' w')

  attempts_some :
      (n : ℕ) (c : Client) (a : Agent) (primary : BackendId) (s p : Text) (last : AttemptResult)
      (r : Router) (w : net.World)
      → (attempts net ops (suc n) c a primary s p (last, r, w)).0 ≡ failed_attempt a
  unfolding attempts
  attempts_some n c a primary s p last r w =
      let (attempt, r', w') = round net ops c a primary s p r w in
      rw (round-refused c a primary s p r w) (attempts-refused n c a primary s p r' w')

  -- On a network that refuses every connection, a call of an agent whose cap fits an int returns the text of that error, after
  -- its retries and its fallback.
  pub call_with_system-refused :
      (metal : Bool) (c : Client) (a : Agent) (s p : Text) (r : Router) (w : net.World)
      → HasSmallCap a
      → (out : Text × Router × net.World) × (call_with_system net ops metal c a s p r w
          ≡ (some out.0, out.1, out.2))
        × (out.0 ≡ connection_error a e)
  unfolding call_routed call_with_system
  call_with_system-refused metal c a s p r w small =
      let (d, resolved, _) = resolve_total metal r (to_backend a) in
      let r' = if should_route r then record_decision a.name d r else r in
      let sys = to_valid_utf8 (role_prompt a s) in
      let result = attempts net ops 2 c a d.backend sys (to_valid_utf8 p) (no_attempt, r', w) in
      (
        (connection_error a e, result.1, result.2),
        rw (
          resolved,
          call_with_system,
          cap_panics-HasSmallCap a small,
          attempts_some 1 c a d.backend sys (to_valid_utf8 p) no_attempt r' w,
        ),
        refl,
      )
