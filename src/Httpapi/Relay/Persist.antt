-- ===== src/Httpapi/Relay/Persist.antt =====
-- `handleArchitectStream`: which requests leave a run behind.
use cofiswarm_dispatch.Prelude.{
  Text, codes, is_empty, Bool, true, false, not, Option, none, some, List, ◌≡◌, ◌⊎◌, ap, ◌∙◌, inl,
  inr, refl, Bool-cases, Option-cases,
}
use cofiswarm_dispatch.Prelude.Space.{trim_space}
use cofiswarm_dispatch.Json.{yes_value, text, Fields, lookup}
use cofiswarm_dispatch.Backend.Router.{Env}
use cofiswarm_dispatch.Stream.{Sink, emit_flat_replay}
use cofiswarm_dispatch.Session.Store.{append_run}
use cofiswarm_dispatch.Registry.{Cache, agents_of, roster}
use cofiswarm_dispatch.Roster.{merge_roster_rag}
use cofiswarm_dispatch.Prepare.{Request, RagResult, parse}
use cofiswarm_dispatch.Modes.{ModeError, Executed, failed, returned, execute, stream_relay}
use cofiswarm_dispatch.Httpapi.{
  Server, Deps, Moment, World, registry_service, resolve_mode, effective_prompt, gate_kv, keep_run,
  evict_hook,
}
use cofiswarm_dispatch.Httpapi.Architect.Persist.{IsAsked, with_cache}
use cofiswarm_dispatch.Httpapi.Architect.Answer.{HasRequest}
use cofiswarm_dispatch.Httpapi.Relay.Runs.{
  relayed_run-HasRequest, replayed_run-HasRequest, answered,
}
use cofiswarm_dispatch.Httpapi.Relay.{
  Ending, relayed, replayed, Handled, relayed_run, replayed_run, answer_of, replay_agent, replay,
  after_relay, stream_gated, stream_body, stream_parsed, handle_stream,
}

-- Whether the client got an answer to its end.
abbrev pub is_answered : Ending → Bool
is_answered relayed = true
is_answered replayed = true
is_answered _ = false

module _ (deps : Deps) (sink : Sink) (first_key : Fields → Text) (env : Env) (moment : Moment)
    (raw : Text) (s : Server) where
  -- The relay of the mode service's stream reported no failure and left the connection as it is.
  abbrev pub IsRelayed : Request → (mode eff_prompt : Text) → sink.World → Type 0
  IsRelayed req mode eff_prompt conn =
      (cfg : Fields) × (c : sink.World) × (w : World deps) × (w' : World deps) × (stream_relay
          deps.network deps.formats deps.lower sink.World sink.write env mode eff_prompt
          req.session_id cfg c w
        ≡ (none, conn, w'))

  -- The mode service returned an envelope whose final answer, trimmed, is not empty, and every frame of its replay
  -- was written.
  abbrev pub IsReplayed : Request → (mode eff_prompt answer : Text) → sink.World → Type 0
  IsReplayed req mode eff_prompt answer conn =
      (cfg : Fields) × (w : World deps) × (envelope : Fields) × (t : Text) × (agent : Text)
      × (c : sink.World) × ((execute deps.network deps.formats deps.lower env mode eff_prompt cfg
            w).0
          ≡ returned (some envelope))
      × (lookup (codes "final") envelope ≡ some (text t))
      × (answer ≡ trim_space t)
      × (is_empty answer ≡ false)
      × (emit_flat_replay sink req.session_id agent answer c ≡ (true, conn))

  -- The run of a stream that was relayed, or of an answer that is not empty and was replayed.
  abbrev pub IsRunOf : Request → Ending → sink.World → Fields → Type 0
  IsRunOf req ending conn run =
      (mode : Text) × (eff_prompt : Text) × HasRequest req mode eff_prompt run
      × ((ending ≡ relayed)
            × IsRelayed req mode eff_prompt conn
            × (lookup (codes "stream") run ≡ some yes_value)
          ⊎ ((answer : Text) × (ending ≡ replayed)
              × IsReplayed req mode eff_prompt answer conn
              × (lookup (codes "final") run ≡ some (text answer))))

  abbrev pub IsKept : Handled → sink.World → Type 0
  IsKept h conn =
      (req : Request) × IsAsked deps moment raw req
      × (run : Fields) × IsRunOf req h.ending conn run
      × (let (sessions, outcome, handed) =
            append_run deps.session_codec deps.ops moment.session_write moment.appended_at
              req.session_id run s.sessions in
          (h.server.sessions ≡ sessions)
          × (h.server.history ≡ evict_hook deps.history_codec moment.history_write handed s.history)
          × (h.server.router ≡ s.router))

  abbrev pub IsUntouched : Handled → Type 0
  IsUntouched h =
      (is_answered h.ending ≡ false)
      × (h.server.sessions ≡ s.sessions)
      × (h.server.history ≡ s.history)
      × (h.server.router ≡ s.router)

  abbrev pub IsSettled : Handled → sink.World → Type 0
  IsSettled h conn = IsKept h conn ⊎ IsUntouched h

  replay-Settled :
      (req : Request) (mode eff_prompt : Text) (alerts : List Text) (executed : Executed)
      (cache : Cache) (c : sink.World) (cfg : Fields) (w : World deps)
      → IsAsked deps moment raw req
      → (execute deps.network deps.formats deps.lower env mode eff_prompt cfg w).0 ≡ executed
      → let res =
          replay deps sink first_key moment req mode eff_prompt alerts executed
            (with_cache cache s)
            c in
        IsSettled res.0 res.1
  unfolding replay keep_run
  replay-Settled req mode eff_prompt alerts (failed cause) cache c cfg w asked ran =
      inr (refl, refl, refl, refl)
  replay-Settled req mode eff_prompt alerts (returned envelope) cache c cfg w asked ran =
      let answer = answer_of envelope in
      let agent = replay_agent first_key envelope in
      let sent = emit_flat_replay sink req.session_id agent answer c in
      elim (Bool-cases (is_empty answer)) [
        | inl e ↦ rw e (inr (refl, refl, refl, refl))
        | inr e ↦ elim (Bool-cases sent.0) [
          | inl f ↦
              let (m, t, there, final, trimmed) = answered envelope e in
              let (of_req, told) =
                replayed_run-HasRequest moment req mode eff_prompt agent answer in
              let whole : sent ≡ (true, sent.1) = λ i. (f i, sent.1) in
              rw (e, f)
                (inl (
                  req,
                  asked,
                  replayed_run moment req mode eff_prompt agent answer,
                  (
                    mode,
                    eff_prompt,
                    of_req,
                    inr (
                      answer,
                      refl,
                      (cfg, w, m, t, agent, c, ran ∙ ap returned there, final, trimmed, e, whole),
                      told,
                    ),
                  ),
                  (refl, refl, refl),
                ))
          | inr f ↦ rw (e, f) (inr (refl, refl, refl, refl))
        ]
      ]

  after_relay-Settled :
      (can_flush : Bool) (req : Request) (mode eff_prompt : Text) (mode_cfg : Fields)
      (failure : Option ModeError) (cache : Cache) (c c₀ : sink.World) (w w₀ : World deps)
      → IsAsked deps moment raw req
      → stream_relay deps.network deps.formats deps.lower sink.World sink.write env mode eff_prompt
          req.session_id mode_cfg c₀ w₀
        ≡ (failure, c, w)
      → let res =
          after_relay deps sink first_key env moment can_flush req mode eff_prompt mode_cfg failure
            (with_cache cache s)
            c
            w in
        IsSettled res.0 res.1
  unfolding after_relay keep_run
  after_relay-Settled can_flush req mode eff_prompt mode_cfg none cache c c₀ w w₀ asked sent =
      let (of_req, told) = relayed_run-HasRequest moment req mode eff_prompt in
      inl (
        req,
        asked,
        relayed_run moment req mode eff_prompt,
        (mode, eff_prompt, of_req, inl (refl, (mode_cfg, c₀, w₀, w, sent), told)),
        (refl, refl, refl),
      )
  after_relay-Settled true req mode eff_prompt mode_cfg (some cause) cache c c₀ w w₀ asked sent =
      replay-Settled req mode eff_prompt _
        (execute deps.network deps.formats deps.lower env mode eff_prompt mode_cfg w).0 cache c
        mode_cfg w asked refl
  after_relay-Settled false req mode eff_prompt mode_cfg (some cause) cache c c₀ w w₀ asked sent =
      inr (refl, refl, refl, refl)

  stream_gated-Settled :
      (can_flush : Bool) (req : Request) (mode : Text) (res : RagResult) (cache : Cache)
      (c : sink.World) (w : World deps)
      → IsAsked deps moment raw req
      → let out =
          stream_gated deps sink first_key env moment can_flush req mode res
            (with_cache cache s)
            c
            w in
        IsSettled out.0 out.1
  unfolding stream_gated
  stream_gated-Settled can_flush req mode res cache c w asked =
      let gate = gate_kv deps env (with_cache cache s) mode res.effective_prompt w in
      elim (Bool-cases (not gate.0.0)) [
        | inl e ↦ rw e (inr (refl, refl, refl, refl))
        | inr e ↦ rw e (
            after_relay-Settled can_flush req mode res.effective_prompt _ _ cache _ c _ _ asked
              refl)
      ]

  stream_body-Settled :
      (can_flush : Bool) (req : Request) (cache : Cache) (c : sink.World) (w : World deps)
      → IsAsked deps moment raw req
      → let out =
          stream_body deps sink first_key env moment can_flush req (with_cache cache s) c w in
        IsSettled out.0 out.1
  unfolding stream_body
  stream_body-Settled can_flush req cache c w asked =
      let (mode, w') = resolve_mode deps env req.mode w in
      elim (Option-cases (effective_prompt deps (with_cache cache s) req w')) [
        | inl e ↦ rw (e, stream_body) (inr (refl, refl, refl, refl))
        | inr ((compaction, res, w''), e) ↦
            rw (e, stream_body) (stream_gated-Settled can_flush req mode res cache c w'' asked)
      ]

  stream_parsed-Settled :
      (can_flush : Bool) (parsed : Option Request) (c : sink.World) (w : World deps)
      → parse deps.decode_request moment.new_id raw ≡ parsed
      → let out = stream_parsed deps sink first_key env moment can_flush parsed s c w in
        IsSettled out.0 out.1
  unfolding stream_parsed
  stream_parsed-Settled can_flush none c w sent = inr (refl, refl, refl, refl)
  stream_parsed-Settled can_flush (some req) c w sent =
      let (agents, cache, w') =
        roster (registry_service deps) env moment.roster_now moment.roster_done s.roster_cache w in
      elim (Bool-cases (is_empty req.prompt)) [
        | inl e ↦ rw e (inr (refl, refl, refl, refl))
        | inr e ↦ rw e (
            stream_body-Settled can_flush (merge_roster_rag req (agents_of agents)) cache c w'
              (req, agents_of agents, sent, refl))
      ]

pub handle_stream-settled :
    (deps : Deps) (sink : Sink) (first_key : Fields → Text) (env : Env) (moment : Moment)
    (can_flush is_post : Bool) (raw : Text) (s : Server) (c : sink.World) (w : World deps)
    → let (h, conn, w') =
        handle_stream deps sink first_key env moment can_flush is_post raw s c w in
      IsKept deps sink first_key env moment raw s h conn
      ⊎ IsUntouched deps sink first_key env moment raw s h
unfolding handle_stream
handle_stream-settled deps sink first_key env moment can_flush true raw s c w =
    stream_parsed-Settled deps sink first_key env moment raw s can_flush
      (parse deps.decode_request moment.new_id raw) c w refl
handle_stream-settled deps sink first_key env moment can_flush false raw s c w =
    inr (refl, refl, refl, refl)
