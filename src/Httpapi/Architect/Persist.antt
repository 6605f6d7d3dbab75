-- ===== src/Httpapi/Architect/Persist.antt =====
-- `handleArchitect`: which requests leave a run behind, and what they leave of the router's context.
use cofiswarm_dispatch.Prelude.{
  Text, is_empty, Bool, true, false, not, Option, none, some, List, [], ◌==◌, ◌≡◌, ◌⊎◌, inl, inr,
  refl, Bool-cases, Option-cases,
}
use cofiswarm_dispatch.Json.{object, Fields}
use cofiswarm_dispatch.Agent.{Agent}
use cofiswarm_dispatch.Backend.Router.{Env, clear_context}
use cofiswarm_dispatch.Session.Store.{append_run}
use cofiswarm_dispatch.Registry.{Cache, agents_of, roster}
use cofiswarm_dispatch.Roster.{merge_roster_rag}
use cofiswarm_dispatch.Prepare.{Request, RagResult, parse}
use cofiswarm_dispatch.Modes.{Executed, failed, returned}
use cofiswarm_dispatch.Httpapi.{
  Server, Deps, Moment, World, Response, json, plain, copied, panicked, registry_service,
  enter_context, leave_context, resolve_mode, effective_prompt, gate_kv, keep_run, evict_hook,
  budget_denied, mode_unavailable, empty_prompt, post_only,
}
use cofiswarm_dispatch.Httpapi.Architect.Answer.{
  HasRequest, HasAnswer, answered_run-HasRequest, answered_run-HasAnswer,
}
use cofiswarm_dispatch.Httpapi.Architect.{
  Handled, conclude, run_mode, gated, dispatch, dispatch_parsed, handle_architect,
}

-- Whether the answer is a 200.
abbrev pub is_ok : Response → Bool
is_ok (json status body) = status == 200
is_ok (plain status message) = status == 200
is_ok (copied status bytes) = status == 200
is_ok panicked = false

-- A request as it was sent, after the roster was merged into it.
abbrev pub IsAsked : Deps → Moment → (raw : Text) → Request → Type 0
IsAsked deps moment raw req =
    (asked : Request) × (agents : List Agent) × (parse deps.decode_request moment.new_id raw
      ≡ some asked)
    × (req ≡ merge_roster_rag asked agents)

-- The server of a request that ended early: only the roster's cache may have changed.
abbrev pub with_cache : Cache → Server → Server
with_cache cache s = record s { roster_cache = cache }

-- What holds of every early end and of every conclusion holds of the handler.
module _ (deps : Deps) (env : Env) (moment : Moment) (raw : Text) (s : Server)
    (P : Handled → Type 0)
    (ended : (response : Response) (alerts : List Text) (cache : Cache)
      → is_ok response ≡ false
      → P (record { response = response; alerts = alerts; server = with_cache cache s }))
    (concluded : (req : Request) (mode : Text) (compaction : Option Fields) (res : RagResult)
        (executed : Executed) (cache : Cache)
      → IsAsked deps moment raw req
      → P (
          conclude deps moment req mode compaction res executed
            (enter_context mode req.kv_pressure s.router)
            (with_cache cache s))) where
  gated-P :
      (req : Request) (mode : Text) (compaction : Option Fields) (res : RagResult) (cache : Cache)
      (w : World deps)
      → IsAsked deps moment raw req
      → P (gated deps env moment req mode compaction res (with_cache cache s) w).0
  unfolding gated run_mode
  gated-P req mode compaction res cache w asked =
      let ((allowed, reason), alerts, w') =
        gate_kv deps env (with_cache cache s) mode res.effective_prompt w in
      elim (Bool-cases (not allowed)) [
        | inl e ↦
            rw e (ended (budget_denied mode reason) alerts cache (unfold budget_denied in refl))
        | inr e ↦ rw e (concluded req mode compaction res _ cache asked)
      ]

  dispatch-P :
      (req : Request) (cache : Cache) (w : World deps)
      → IsAsked deps moment raw req
      → P (dispatch deps env moment req (with_cache cache s) w).0
  unfolding dispatch
  dispatch-P req cache w asked =
      let (mode, w') = resolve_mode deps env req.mode w in
      elim (Option-cases (effective_prompt deps (with_cache cache s) req w')) [
        | inl e ↦ rw (e, dispatch) (ended panicked [] cache refl)
        | inr ((compaction, res, w''), e) ↦
            rw (e, dispatch) (gated-P req mode compaction res cache w'' asked)
      ]

  parsed-P :
      (parsed : Option Request) (w : World deps)
      → parse deps.decode_request moment.new_id raw ≡ parsed
      → P (dispatch_parsed deps env moment parsed s w).0
  unfolding dispatch_parsed
  parsed-P none w sent = ended empty_prompt [] s.roster_cache (unfold empty_prompt in refl)
  parsed-P (some req) w sent =
      let (agents, cache, w') =
        roster (registry_service deps) env moment.roster_now moment.roster_done s.roster_cache w in
      elim (Bool-cases (is_empty req.prompt)) [
        | inl e ↦ rw e (ended empty_prompt [] s.roster_cache (unfold empty_prompt in refl))
        | inr e ↦ rw e (
            dispatch-P (merge_roster_rag req (agents_of agents)) cache w'
              (req, agents_of agents, sent, refl))
      ]

  pub handle_architect-P :
      (is_post : Bool) (w : World deps) → P (handle_architect deps env moment is_post raw s w).0
  unfolding handle_architect
  handle_architect-P true w = parsed-P (parse deps.decode_request moment.new_id raw) w refl
  handle_architect-P false w = ended post_only [] s.roster_cache (unfold post_only in refl)

module _ (deps : Deps) (moment : Moment) (raw : Text) (s : Server) where
  -- A run with the request and the answer is appended to the session, and what it evicts goes to the history.
  abbrev pub IsKept : Handled → Type 0
  IsKept h =
      (req : Request) × IsAsked deps moment raw req
      × (mode : Text) × (eff_prompt : Text) × (envelope : Fields) × (h.response
          ≡ json 200 (object envelope))
      × (run : Fields) × HasRequest req mode eff_prompt run
      × HasAnswer eff_prompt envelope run
      × (let (sessions, outcome, handed) =
            append_run deps.session_codec deps.ops moment.session_write moment.appended_at
              req.session_id run s.sessions in
          (h.server.sessions ≡ sessions)
          × (h.server.history
              ≡ evict_hook deps.history_codec moment.history_write handed s.history))

  abbrev pub IsUntouched : Handled → Type 0
  IsUntouched h =
      (is_ok h.response ≡ false) × (h.server.sessions ≡ s.sessions) × (h.server.history ≡ s.history)

  conclude-Settled :
      (req : Request) (mode : Text) (compaction : Option Fields) (res : RagResult)
      (executed : Executed) (cache : Cache)
      → IsAsked deps moment raw req
      → let h =
          conclude deps moment req mode compaction res executed
            (enter_context mode req.kv_pressure s.router)
            (with_cache cache s) in
        IsKept h ⊎ IsUntouched h
  unfolding conclude keep_run mode_unavailable
  conclude-Settled req mode compaction res (failed cause) cache asked = inr (refl, refl, refl)
  conclude-Settled req mode compaction res (returned none) cache asked = inr (refl, refl, refl)
  conclude-Settled req mode compaction res (returned (some envelope)) cache asked = inl (
    req,
    asked,
    mode,
    res.effective_prompt,
    _,
    refl,
    _,
    answered_run-HasRequest moment req mode res.effective_prompt _,
    answered_run-HasAnswer moment req mode res.effective_prompt _,
    (refl, refl),
  )

  conclude-ctx :
      (req : Request) (mode : Text) (compaction : Option Fields) (res : RagResult)
      (executed : Executed) (cache : Cache)
      → IsAsked deps moment raw req
      → let h =
          conclude deps moment req mode compaction res executed
            (enter_context mode req.kv_pressure s.router)
            (with_cache cache s) in
        (h.response ≡ panicked) ⊎ (h.server.router.ctx ≡ none)
  unfolding conclude keep_run leave_context clear_context
  conclude-ctx req mode compaction res (failed cause) cache asked = inr refl
  conclude-ctx req mode compaction res (returned none) cache asked = inl refl
  conclude-ctx req mode compaction res (returned (some envelope)) cache asked = inr refl

-- For every request, whatever the network and the disk do: either the answer is a 200 with an envelope, and
-- a run is appended to the session of the request that was sent, with that request's id, prompt and followup
-- flag, a mode, an effective prompt, the envelope's final answer (the effective prompt where it has no text)
-- and its agents, and the runs that this evicts are handed to the history; or the answer is not a 200, and the sessions and the history are as they were.
pub handle_architect-IsKept :
    (deps : Deps) (env : Env) (moment : Moment) (is_post : Bool) (raw : Text) (s : Server)
    (w : World deps)
    → let h = (handle_architect deps env moment is_post raw s w).0 in
      IsKept deps moment raw s h ⊎ IsUntouched deps moment raw s h
handle_architect-IsKept deps env moment is_post raw s w =
    handle_architect-P deps env moment raw s
      (λ h. IsKept deps moment raw s h ⊎ IsUntouched deps moment raw s h)
      (λ response alerts cache e. inr (e, refl, refl)) (conclude-Settled deps moment raw s) is_post
      w

-- If the router has no context when a request starts, it has none after it, for every request that does not
-- panic.
pub handle_architect-ctx :
    (deps : Deps) (env : Env) (moment : Moment) (is_post : Bool) (raw : Text) (s : Server)
    (w : World deps)
    → s.router.ctx ≡ none
    → let h = (handle_architect deps env moment is_post raw s w).0 in
      (h.response ≡ panicked) ⊎ (h.server.router.ctx ≡ none)
handle_architect-ctx deps env moment is_post raw s w fresh =
    handle_architect-P deps env moment raw s
      (λ h. (h.response ≡ panicked) ⊎ (h.server.router.ctx ≡ none))
      (λ response alerts cache e. inr fresh) (conclude-ctx deps moment raw s) is_post w
