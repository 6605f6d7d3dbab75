-- ===== src/Httpapi/Architect.antt =====
-- `handleArchitect`: one dispatch, answered when the mode service has answered.
pub mod Answer
pub mod Persist
use cofiswarm_dispatch.Prelude.{
  ℕ, Text, codes, is_empty, Bool, true, false, not, Option, none, some, List, [], ◌∷◌, ◌++◌,
  if◌then◌else◌,
}
use cofiswarm_dispatch.Json.{
  Value, null, yes_value, int, text, object, Fields, end, field, lookup, insert, as_text, as_object,
}
use cofiswarm_dispatch.Backend.Router.{Env, Router}
use cofiswarm_dispatch.Registry.{agents_of, roster}
use cofiswarm_dispatch.Roster.{merge_roster_rag, with_rag_mode_config}
use cofiswarm_dispatch.Prepare.{Request, RagResult, parse, bool_value}
use cofiswarm_dispatch.Prepare.Stamp.{stamp_meta}
use cofiswarm_dispatch.Modes.{ModeError, Executed, failed, returned, execute}
use cofiswarm_dispatch.Httpapi.{
  Server, Deps, Moment, World, Response, json, panicked, registry_service, enter_context,
  leave_context, resolve_mode, effective_prompt, gate_kv, keep_run, budget_denied, mode_unavailable,
  empty_prompt, post_only, alert_of,
}

-- What a handler leaves: its answer, the alerts it sent and the server.
pub record Handled : Type 0 where
  pub response : Response
  pub alerts : List Text
  pub server : Server

relay_meta : Option Fields → Fields
relay_meta none = field (codes "relay") yes_value end
relay_meta (some meta) = insert (codes "relay") yes_value meta

-- The envelope with `meta.relay` set.
unfoldable pub with_relay : Fields → Fields
unfolding relay_meta
with_relay envelope =
    insert (codes "meta") (object (relay_meta (as_object (lookup (codes "meta") envelope))))
      envelope

unfoldable pub text_or : Option Text → Text → Text
text_or none def = def
text_or (some t) def = t

unfoldable pub value_or_null : Option Value → Value
value_or_null none = null
value_or_null (some v) = v

-- The run of an answered dispatch; its final answer is the prompt where the envelope has no text.
unfoldable pub answered_run :
    Moment → Request → (mode eff_prompt : Text) → (envelope : Fields) → Fields
unfolding text_or value_or_null
answered_run moment req mode eff_prompt envelope = field (codes "run_id") (text req.run_id) (
    field (codes "prompt") (text req.prompt) (
      field (codes "effective_prompt") (text eff_prompt) (
        field (codes "followup") (bool_value req.followup) (
          field (codes "mode") (text mode) (
            field (codes "final")
              (text (text_or (as_text (lookup (codes "final") envelope)) eff_prompt))
              (field (codes "agents") (value_or_null (lookup (codes "agents") envelope))
                (field (codes "timestamp") (int moment.timestamp) end)))))))

module _ (deps : Deps) where
  unavailable_alert : (mode : Text) → ModeError → Text
  unavailable_alert mode cause =
      codes "mode " ++ deps.quote mode ++ codes " execute unavailable: " ++ deps.explain cause

  -- After the execution, in the router's context `inside`.
  unfoldable pub conclude :
      Moment
      → Request
      → (mode : Text) → (compaction : Option Fields) → RagResult
      → Executed
      → (inside : Router) → Server
      → Handled
  unfolding unavailable_alert with_relay
  conclude moment req mode compaction res (failed cause) inside s = record {
    response = mode_unavailable deps mode cause;
    alerts = alert_of s (unavailable_alert mode cause);
    server = record s { router = (leave_context inside).1 };
  }
  conclude moment req mode compaction res (returned none) inside s = record {
    response = panicked;
    alerts = [];
    server = record s { router = inside };
  }
  conclude moment req mode compaction res (returned (some envelope)) inside s =
      let (routing, outside) = leave_context inside in
      let stamped = stamp_meta (with_relay envelope) req res compaction moment.wall_ms routing in
      record {
        response = json 200 (object stamped);
        alerts = [];
        server =
            keep_run deps moment req.session_id
              (answered_run moment req mode res.effective_prompt stamped)
              (record s { router = outside });
      }

  -- Once the gate has let the run pass.
  unfoldable pub run_mode :
      Env
      → Moment
      → Request
      → (mode : Text) → (compaction : Option Fields) → RagResult
      → Server
      → World deps
      → Handled × World deps
  run_mode env moment req mode compaction res s w =
      let mode_cfg = with_rag_mode_config req.mode_config res.rag_block req.rag_agents in
      let inside = enter_context mode req.kv_pressure s.router in
      let (executed, w') =
        execute deps.network deps.formats deps.lower env mode res.effective_prompt mode_cfg w in
      (conclude moment req mode compaction res executed inside s, w')

  unfoldable pub gated :
      Env
      → Moment
      → Request
      → (mode : Text) → (compaction : Option Fields) → RagResult
      → Server
      → World deps
      → Handled × World deps
  gated env moment req mode compaction res s w =
      let ((allowed, reason), alerts, w') = gate_kv deps env s mode res.effective_prompt w in
      if not allowed
      then (record { response = budget_denied mode reason; alerts = alerts; server = s }, w')
      else run_mode env moment req mode compaction res s w'

  -- A request that has its roster.
  unfoldable pub dispatch : Env → Moment → Request → Server → World deps → Handled × World deps
  dispatch env moment req s w =
      let (mode, w') = resolve_mode deps env req.mode w in
      elim (effective_prompt deps s req w') [
        | none ↦ (record { response = panicked; alerts = []; server = s }, w')
        | some (compaction, res, w'') ↦ gated env moment req mode compaction res s w''
      ]

  unfoldable pub dispatch_parsed :
      Env → Moment → Option Request → Server → World deps → Handled × World deps
  dispatch_parsed env moment none s w =
      (record { response = empty_prompt; alerts = []; server = s }, w)
  dispatch_parsed env moment (some req) s w =
      let (agents, cache, w') =
        roster (registry_service deps) env moment.roster_now moment.roster_done s.roster_cache w in
      if is_empty req.prompt
      then (record { response = empty_prompt; alerts = []; server = s }, w)
      else dispatch env moment (merge_roster_rag req (agents_of agents))
          (record s { roster_cache = cache }) w'

  unfoldable pub handle_architect :
      Env → Moment → (is_post : Bool) → (raw : Text) → Server → World deps → Handled × World deps
  unfolding dispatch_parsed
  handle_architect env moment is_post raw s w =
      if is_post
      then dispatch_parsed env moment (parse deps.decode_request moment.new_id raw) s w
      else (record { response = post_only; alerts = []; server = s }, w)
