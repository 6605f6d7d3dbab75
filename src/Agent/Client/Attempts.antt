-- ===== src/Agent/Client/Attempts.antt =====
-- How often a call reaches for the network, and what it returns.
use cofiswarm_dispatch.Prelude.{
  ℕ, zero, suc, ◌+◌, ◌*◌, ◌≤◌, Text, is_empty, Bool, false, none, some, ◌<◌, ◌^◌, [], ◌∷◌, ◌≡◌, ◌∙◌,
  ◌≢◌, inl, inr, refl, arith, Bool-cases, if◌then◌else◌, not, ◌&&◌, ◌||◌,
}
use cofiswarm_dispatch.Prelude.Decimal.{pos}
use cofiswarm_dispatch.Prelude.Float.{Float64, FloatOps}
use cofiswarm_dispatch.Backend.{BackendId, supports}
use cofiswarm_dispatch.Backend.Router.{Router, Decision, should_route}
use cofiswarm_dispatch.Prelude.Utf8.{to_valid_utf8}
use cofiswarm_dispatch.Backend.Router.Record.{record_decision}
use cofiswarm_dispatch.Backend.Router.Choose.{resolve}
use cofiswarm_dispatch.Backend.Router.Choose.Sound.{resolve_total}
use cofiswarm_dispatch.Agent.{
  Agent, to_backend, with_engine, materialized_engine, not_responding, HasSmallCap, cap_panics,
  cap_panics_wrap, cap_panics-HasSmallCap,
}
use cofiswarm_dispatch.Agent.Client.{
  Net, Client, Request, answer, AttemptResult, read_reply, complete_once, try_fallback, round,
  attempts, no_attempt, role_prompt, request_of, is_transient, other_backend, call_routed,
  call_with_system,
}

-- The same network, counting the requests.
abbrev pub counting : Net → Net
counting net = record {
  World = net.World × ℕ;
  post = λ req w. let (reply, w') = net.post req w.0 in (reply, (w', w.1 + 1));
  choices = net.choices;
  error_message = net.error_message;
}

module _ (net : Net) (ops : FloatOps) where
  count-complete_once :
      (c : Client) (a : Agent) (s p : Text) (r : Router) (w : net.World × ℕ)
      → (complete_once (counting net) ops c a s p r w).2.1 ≡ w.1 + 1
  unfolding complete_once
  count-complete_once c a s p r w = refl

  count-try_fallback :
      (c : Client) (a : Agent) (primary : BackendId) (s p : Text) (r : Router) (w : net.World × ℕ)
      → (w.1 ≤ (try_fallback (counting net) ops c a primary s p r w).2.1)
        × ((try_fallback (counting net) ops c a primary s p r w).2.1 ≤ w.1 + 1)
  unfolding try_fallback
  count-try_fallback c a primary s p r w =
      elim (Bool-cases (supports (to_backend a) (other_backend primary))) [
        | inl e ↦
            let work = with_engine a (materialized_engine (other_backend primary)) in
            let fb = (complete_once (counting net) ops c work s p r w).0 in
            let n = count-complete_once c work s p r w in
            rw e (elim (Bool-cases (fb.ok || not fb.retryable)) [
              | inl f ↦ rw f (omega arith, omega arith)
              | inr f ↦ rw f (omega arith, omega arith)
            ])
        | inr e ↦ rw e (omega arith, omega arith)
      ]

  count-round :
      (c : Client) (a : Agent) (primary : BackendId) (s p : Text) (r : Router) (w : net.World × ℕ)
      → (w.1 + 1 ≤ (round (counting net) ops c a primary s p r w).2.1)
        × ((round (counting net) ops c a primary s p r w).2.1 ≤ w.1 + 2)
  unfolding round
  count-round c a primary s p r w =
      let work = with_engine a (materialized_engine primary) in
      let one = complete_once (counting net) ops c work s p r w in
      let n = count-complete_once c work s p r w in
      let (lo, hi) = count-try_fallback c a primary s p one.1 one.2 in
      elim (Bool-cases (not one.0.ok && one.0.retryable && should_route one.1)) [
        | inl e ↦ rw e (omega arith, omega arith)
        | inr e ↦ rw e (omega arith, omega arith)
      ]

  count-attempts :
      (n : ℕ) (c : Client) (a : Agent) (primary : BackendId) (s p : Text) (last : AttemptResult)
      (r : Router) (w : net.World × ℕ)
      → (w.1 ≤ (attempts (counting net) ops n c a primary s p (last, r, w)).2.1)
        × ((attempts (counting net) ops n c a primary s p (last, r, w)).2.1 ≤ w.1 + 2 * n)
  unfolding attempts
  count-attempts zero c a primary s p last r w = (omega arith, omega arith)
  count-attempts (suc n) c a primary s p last r w =
      let one = round (counting net) ops c a primary s p r w in
      let (lo, hi) = count-round c a primary s p r w in
      let (lo', hi') = count-attempts n c a primary s p one.0 one.1 one.2 in
      elim (Bool-cases (one.0.ok || not one.0.retryable)) [
        | inl e ↦ rw e (omega arith, omega arith)
        | inr e ↦ rw e (omega arith, omega arith)
      ]

  attempts_some :
      (n : ℕ) (c : Client) (a : Agent) (primary : BackendId) (s p : Text) (last : AttemptResult)
      (r : Router) (w : net.World × ℕ)
      → w.1 + 1 ≤ (attempts (counting net) ops (suc n) c a primary s p (last, r, w)).2.1
  unfolding attempts
  attempts_some n c a primary s p last r w =
      let one = round (counting net) ops c a primary s p r w in
      let (lo, hi) = count-round c a primary s p r w in
      let (lo', hi') = count-attempts n c a primary s p one.0 one.1 one.2 in
      elim (Bool-cases (one.0.ok || not one.0.retryable)) [
        | inl e ↦ rw e (omega arith)
        | inr e ↦ rw e (omega arith)
      ]

  text-ne-nil : (t : Text) (a : Agent) → (if is_empty t then not_responding a else t) ≢ []
  unfolding not_responding
  text-ne-nil [] a = cc
  text-ne-nil (x ∷ t) a = cc

  call_some :
      (metal : Bool) (c : Client) (a : Agent) (s p : Text) (r : Router) (d : Decision)
      (w : net.World × ℕ)
      → resolve metal r (to_backend a) ≡ some d
      → call_with_system (counting net) ops metal c a s p r w
        ≡ call_routed (counting net) ops c a s p d r w
  unfolding call_with_system
  call_some metal c a s p r d w e = rw (e, call_with_system)

  -- A call of any agent whose maximum of input tokens, if it is positive, is a number whose product with four
  -- fits an int, on any network and on any router that no other goroutine changes meanwhile, returns; its
  -- text is not empty; and it has sent one request at least and four at most.
  pub call_with_system-count :
      (metal : Bool) (c : Client) (a : Agent) (s p : Text) (r : Router) (w : net.World) (n : ℕ)
      → HasSmallCap a
      → (out : Text × Router × (net.World × ℕ)) × (call_with_system
            (counting net)
            ops
            metal
            c
            a
            s
            p
            r
            (w, n)
          ≡ (some out.0, out.1, out.2))
        × (out.0 ≢ [])
        × (n + 1 ≤ out.2.1)
        × (out.2.1 ≤ n + 4)
  unfolding call_routed
  call_with_system-count metal c a s p r w n small =
      let (d, resolved, _) = resolve_total metal r (to_backend a) in
      let r' = if should_route r then record_decision a.name d r else r in
      let sys = to_valid_utf8 (role_prompt a s) in
      let user = to_valid_utf8 p in
      let result = attempts (counting net) ops 2 c a d.backend sys user (no_attempt, r', (w, n)) in
      let (lo, hi) = count-attempts 2 c a d.backend sys user no_attempt r' (w, n) in
      (
        (if is_empty result.0.text then not_responding a else result.0.text, result.1, result.2),
        call_some metal c a s p r d (w, n) resolved
            ∙ unfold call_routed in rw (cap_panics-HasSmallCap a small) refl,
        text-ne-nil result.0.text a,
        attempts_some 1 c a d.backend sys user no_attempt r' (w, n),
        omega arith,
      )

  -- A call of an agent whose maximum of input tokens is from 2 ^ 61 up to 2 ^ 62 panics, whatever the prompt,
  -- the network and the router (which no other goroutine changes meanwhile) are: the product with four wraps to
  -- a negative bound. It sends nothing.
  pub call_with_system-overflow :
      (metal : Bool) (c : Client) (a : Agent) (s p : Text) (r : Router) (w : net.World) (n k : ℕ)
      → a.max_input_tokens ≡ pos n
      → 2 ^ 61 ≤ n
      → n < 2 ^ 62
      → let out = call_with_system (counting net) ops metal c a s p r (w, k) in
        (out.0 ≡ none) × (out.2 ≡ (w, k))
  unfolding call_with_system call_routed
  call_with_system-overflow metal c a s p r w n k e lo hi =
      let (d, resolved, _) = resolve_total metal r (to_backend a) in
      let bad = cap_panics_wrap a.max_input_tokens n e lo hi in
      rw (resolved, call_with_system, bad) (refl, refl)

  -- The request that a round sends for the decided backend.
  abbrev pub first_request : Client → Agent → BackendId → Text → Text → Request
  first_request c a primary s p =
      request_of c (with_engine a (materialized_engine primary)) (to_valid_utf8 (role_prompt a s))
        (to_valid_utf8 p)

  permanent_reply :
      (c : Client) (a : Agent) (status : ℕ) (body : Text) (ms : Float64)
      → status ≢ 200
      → is_transient c status ≡ false
      → ((read_reply (counting net) ops c a (answer status body ms)).ok ≡ false)
        × ((read_reply (counting net) ops c a (answer status body ms)).retryable ≡ false)
  unfolding read_reply
  permanent_reply c a status body ms h t = (ground arith, ground arith)

  -- Where the first answer has a status other than 200 that is not transient, the call stops there: it
  -- sends that one request, with neither a retry nor the fallback.
  pub call_permanent :
      (c : Client) (a : Agent) (s p : Text) (r : Router) (d : Decision) (w : net.World) (n : ℕ)
      (status : ℕ) (body : Text) (ms : Float64)
      → (net.post (first_request c a d.backend s p) w).0 ≡ answer status body ms
      → status ≢ 200
      → is_transient c status ≡ false
      → cap_panics a.max_input_tokens ≡ false
      → (call_routed (counting net) ops c a s p d r (w, n)).2.1 ≡ n + 1
  unfolding call_routed attempts round complete_once
  call_permanent c a s p r d w n status body ms e h t uncut =
      let work = with_engine a (materialized_engine d.backend) in
      let (failed, final) = permanent_reply c work status body ms h t in
      rw (uncut, e, failed, final)
