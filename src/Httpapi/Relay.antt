-- ===== src/Httpapi/Relay.antt =====
-- `handleArchitectStream`: one dispatch, relayed from the mode service as a stream, or replayed from its answer.
-- The connection to the client is a `Sink`; `first_key` is the key that a range over a map meets first.
pub mod Runs
pub mod Persist
use cofiswarm_dispatch.Prelude.{
  ℕ, Text, codes, is_empty, or_empty, Bool, true, false, not, Option, none, some, List, [], ◌∷◌,
  ◌++◌, if◌then◌else◌,
}
use cofiswarm_dispatch.Prelude.Space.{trim_space}
use cofiswarm_dispatch.Json.{
  yes_value, int, text, object, Fields, end, field, lookup, as_text, as_object,
}
use cofiswarm_dispatch.Backend.Router.{Env}
use cofiswarm_dispatch.Stream.{Sink, emit_flat_replay, emit_error}
use cofiswarm_dispatch.Registry.{agents_of, roster}
use cofiswarm_dispatch.Roster.{merge_roster_rag, with_rag_mode_config}
use cofiswarm_dispatch.Prepare.{Request, RagResult, parse, bool_value}
use cofiswarm_dispatch.Modes.{ModeError, Executed, failed, returned, execute, stream_relay}
use cofiswarm_dispatch.Httpapi.{
  Server, Deps, Moment, World, Response, plain, panicked, registry_service, resolve_mode,
  effective_prompt, gate_kv, keep_run, budget_denied, empty_prompt, post_only, alert_of,
}

-- How the answer ends: an error before any event, a stream copied to its end, a replay written to its end or
-- broken off, or an error event.
pub data Ending : Type 0 where
  rejected : Response → Ending
  relayed replayed broken_off reported : Ending

pub record Handled : Type 0 where
  pub ending : Ending
  pub alerts : List Text
  pub server : Server

unfoldable pub relayed_run : Moment → Request → (mode eff_prompt : Text) → Fields
relayed_run moment req mode eff_prompt = field (codes "run_id") (text req.run_id) (
    field (codes "prompt") (text req.prompt) (
      field (codes "effective_prompt") (text eff_prompt) (
        field (codes "followup") (bool_value req.followup) (
          field (codes "mode") (text mode) (
            field (codes "stream") yes_value
              (field (codes "timestamp") (int moment.timestamp) end))))))

unfoldable pub replayed_run : Moment → Request → (mode eff_prompt agent answer : Text) → Fields
replayed_run moment req mode eff_prompt agent answer = field (codes "run_id") (text req.run_id) (
    field (codes "prompt") (text req.prompt) (
      field (codes "effective_prompt") (text eff_prompt) (
        field (codes "followup") (bool_value req.followup) (
          field (codes "mode") (text mode) (
            field (codes "final") (text answer) (
              field (codes "agents") (object (field agent (text answer) end))
                (field (codes "timestamp") (int moment.timestamp) end)))))))

-- The answer of an envelope that may be nil.
unfoldable pub answer_of : Option Fields → Text
answer_of none = []
answer_of (some envelope) = trim_space (or_empty (as_text (lookup (codes "final") envelope)))

agent_of : (first_key : Fields → Text) → Option Fields → Text
agent_of first_key none = codes "architect"
agent_of first_key (some end) = codes "architect"
agent_of first_key (some (field k v m)) = first_key (field k v m)

agents_in : Option Fields → Option Fields
agents_in none = none
agents_in (some envelope) = as_object (lookup (codes "agents") envelope)

unfoldable pub replay_agent : (first_key : Fields → Text) → Option Fields → Text
unfolding agent_of agents_in
replay_agent first_key envelope = agent_of first_key (agents_in envelope)

module _ (deps : Deps) (sink : Sink) (first_key : Fields → Text) where
  mode_alert : (mode what : Text) → ModeError → Text
  mode_alert mode what cause =
      codes "mode " ++ deps.quote mode ++ what ++ codes " unavailable: " ++ deps.explain cause

  -- The answer replayed, or the report that there is none.
  unfoldable pub replay :
      Moment
      → Request
      → (mode eff_prompt : Text) → (alerts : List Text) → Executed
      → Server
      → sink.World
      → Handled × sink.World
  unfolding mode_alert
  replay moment req mode eff_prompt alerts (failed cause) s c =
      let (ok, c') = emit_error sink deps.quote req.session_id mode (deps.explain cause) c in
      (
        record {
          ending = reported;
          alerts = alerts ++ alert_of s (mode_alert mode (codes " execute") cause);
          server = s;
        },
        c',
      )
  replay moment req mode eff_prompt alerts (returned envelope) s c =
      let answer = answer_of envelope in
      let agent = replay_agent first_key envelope in
      let (told, told_c) =
        emit_error sink deps.quote req.session_id mode (codes "empty result") c in
      let (ok, c') = emit_flat_replay sink req.session_id agent answer c in
      let kept =
        keep_run deps moment req.session_id (replayed_run moment req mode eff_prompt agent answer)
          s in
      if is_empty answer
      then (record { ending = reported; alerts = alerts; server = s }, told_c)
      else if ok
      then (record { ending = replayed; alerts = alerts; server = kept }, c')
      else (record { ending = broken_off; alerts = alerts; server = s }, c')

  -- After the relay; `can_flush` is whether the connection streams.
  unfoldable pub after_relay :
      Env
      → Moment
      → (can_flush : Bool) → Request
      → (mode eff_prompt : Text) → (mode_cfg : Fields) → Option ModeError
      → Server
      → sink.World
      → World deps
      → Handled × sink.World × World deps
  unfolding mode_alert
  after_relay env moment can_flush req mode eff_prompt mode_cfg none s c w = (
    record {
      ending = relayed;
      alerts = [];
      server = keep_run deps moment req.session_id (relayed_run moment req mode eff_prompt) s;
    },
    c,
    w,
  )
  after_relay env moment can_flush req mode eff_prompt mode_cfg (some cause) s c w =
      let alerts = alert_of s (mode_alert mode (codes " stream relay") cause) in
      let (executed, w') =
        execute deps.network deps.formats deps.lower env mode eff_prompt mode_cfg w in
      let (h, c') = replay moment req mode eff_prompt alerts executed s c in
      if can_flush then (h, c', w') else (
        record {
          ending = rejected (plain 500 (codes "streaming unsupported"));
          alerts = alerts;
          server = s;
        },
        c,
        w,
      )

  unfoldable pub stream_gated :
      Env
      → Moment
      → (can_flush : Bool) → Request
      → (mode : Text) → RagResult
      → Server
      → sink.World
      → World deps
      → Handled × sink.World × World deps
  stream_gated env moment can_flush req mode res s c w =
      let ((allowed, reason), alerts, w') = gate_kv deps env s mode res.effective_prompt w in
      let mode_cfg = with_rag_mode_config req.mode_config res.rag_block req.rag_agents in
      let (failure, c', w'') =
        stream_relay deps.network deps.formats deps.lower sink.World sink.write env mode
          res.effective_prompt req.session_id mode_cfg c w' in
      if not allowed
      then (
        record { ending = rejected (budget_denied mode reason); alerts = alerts; server = s },
        c,
        w',
      )
      else after_relay env moment can_flush req mode res.effective_prompt mode_cfg failure s c' w''

  unfoldable pub stream_body :
      Env
      → Moment
      → (can_flush : Bool) → Request
      → Server
      → sink.World
      → World deps
      → Handled × sink.World × World deps
  stream_body env moment can_flush req s c w =
      let (mode, w') = resolve_mode deps env req.mode w in
      elim (effective_prompt deps s req w') [
        | none ↦ (record { ending = rejected panicked; alerts = []; server = s }, c, w')
        | some (compaction, res, w'') ↦ stream_gated env moment can_flush req mode res s c w''
      ]

  unfoldable pub stream_parsed :
      Env
      → Moment
      → (can_flush : Bool) → Option Request
      → Server
      → sink.World
      → World deps
      → Handled × sink.World × World deps
  stream_parsed env moment can_flush none s c w =
      (record { ending = rejected empty_prompt; alerts = []; server = s }, c, w)
  stream_parsed env moment can_flush (some req) s c w =
      let (agents, cache, w') =
        roster (registry_service deps) env moment.roster_now moment.roster_done s.roster_cache w in
      if is_empty req.prompt
      then (record { ending = rejected empty_prompt; alerts = []; server = s }, c, w)
      else stream_body env moment can_flush (merge_roster_rag req (agents_of agents))
          (record s { roster_cache = cache }) c w'

  unfoldable pub handle_stream :
      Env
      → Moment
      → (can_flush is_post : Bool) → (raw : Text) → Server
      → sink.World
      → World deps
      → Handled × sink.World × World deps
  unfolding stream_parsed
  handle_stream env moment can_flush is_post raw s c w =
      if is_post
      then stream_parsed env moment can_flush (parse deps.decode_request moment.new_id raw) s c w
      else (record { ending = rejected post_only; alerts = []; server = s }, c, w)
