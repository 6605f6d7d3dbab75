-- ===== src/Httpapi/Run/Good.antt =====
-- What every run of the server keeps of its sessions and its history: a rule with one premise for each way in which
-- they change.
use cofiswarm_dispatch.Prelude.{
  ℕ, Text, text_eq, codes, Bool, true, false, Option, none, some, List, [], ◌∷◌, All, ◌≡◌, inl, inr,
  subst, Option-cases,
}
use cofiswarm_dispatch.Disk.{File, Write}
use cofiswarm_dispatch.Json.{Fields}
use cofiswarm_dispatch.Backend.Router.{Env, apple_silicon_metal_available}
use cofiswarm_dispatch.History
use cofiswarm_dispatch.Session.Store
use cofiswarm_dispatch.Session.Store.{append_run}
use cofiswarm_dispatch.Httpapi.Architect.{handle_architect}
use cofiswarm_dispatch.Httpapi.Relay.{handle_stream}
use cofiswarm_dispatch.Httpapi.{Server, Moment, World, evict_hook}
use cofiswarm_dispatch.Httpapi.Architect.Persist.{handle_architect-IsKept}
use cofiswarm_dispatch.Httpapi.Relay.Persist.{handle_stream-settled}
use cofiswarm_dispatch.Httpapi.Routes.{Decoded, malformed, decoded, handle_entry}
use cofiswarm_dispatch.Httpapi.Mux.{
  Route, healthz, history_entry, architect, architect_stream, mux, route_in,
}
use cofiswarm_dispatch.Reflect.Pass.Window.{tick-store}
use cofiswarm_dispatch.Httpapi.Reflection.{Started}
use cofiswarm_dispatch.Httpapi.Reflection.Adapters.{scheduler_of, reflect_services}
use cofiswarm_dispatch.Httpapi.Outside.{Outside, HttpRequest}
use cofiswarm_dispatch.Httpapi.Serve.{Worlds, serve_at, serve_found, serve_route, serve}
use cofiswarm_dispatch.Httpapi.Run.{Event, request, ticked, tick_on, tick_server, step, run}

-- Every write of the event is one that `W` allows.
abbrev pub Allows : {o : Outside} → (Write → Type 0) → Event o → Type 0
Allows W (request moment req ws) = W moment.session_write × ((n : ℕ) → W (moment.history_write n))
Allows W (ticked started w w' cursor agents services) = W w

module _ (o : Outside) (env : Env) (W : Write → Type 0)
    (Good : Store.Store → Option History.Store → Type 0)
    (run_kept : (moment : Moment) (session_id : Text) (fields : Fields) (sessions : Store.Store)
        (h : Option History.Store)
      → W moment.session_write
      → ((n : ℕ) → W (moment.history_write n))
      → Good sessions h
      → let (sessions', outcome, handed) =
          append_run o.deps.session_codec o.deps.ops moment.session_write moment.appended_at
            session_id fields sessions in
        Good sessions' (evict_hook o.deps.history_codec moment.history_write handed h))
    (entry_kept : (w : Write) (entry : Fields) (sessions : Store.Store) (h : History.Store)
      → W w
      → Good sessions (some h)
      → Good sessions (some (History.append o.deps.history_codec w entry h).0)) where
  abbrev IsGood : Server → Type 0
  IsGood s = Good s.sessions s.history

  same : (s s' : Server) → s'.sessions ≡ s.sessions → s'.history ≡ s.history → IsGood s → IsGood s'
  same s s' p q g = rw (p, q) g

  entry_Good :
      (w : Write) (cause : Text) (is_post : Bool) (entry : Decoded Fields) (s : Server)
      → W w
      → IsGood s
      → IsGood (handle_entry o.deps.history_codec w cause is_post entry s).1
  unfolding handle_entry
  entry_Good w cause false entry s a g = g
  entry_Good w cause true (malformed e) s a g = g
  entry_Good w cause true (decoded entry) s a g = elim (Option-cases s.history) [
    | inl e ↦ rw (e, handle_entry) g
    | inr (h, e) ↦
        rw (e, handle_entry) (entry_kept w entry s.sessions h a (subst (Good s.sessions) e g))
  ]

  architect_Good :
      (moment : Moment) (is_post : Bool) (raw : Text) (s : Server) (w : World o.deps)
      → W moment.session_write
      → ((n : ℕ) → W (moment.history_write n))
      → IsGood s
      → IsGood (handle_architect o.deps env moment is_post raw s w).0.server
  architect_Good moment is_post raw s w a b g =
      elim (handle_architect-IsKept o.deps env moment is_post raw s w) [
        | inl
              (
                req,
                asked,
                mode,
                eff_prompt,
                envelope,
                answer,
                fields,
                of_req,
                of_answer,
                (sessions_so, history_so),
              ) ↦
            rw (sessions_so, history_so)
              (run_kept moment req.session_id fields s.sessions s.history a b g)
        | inr (failed, sessions_so, history_so) ↦ rw (sessions_so, history_so) g
      ]

  stream_Good :
      (moment : Moment) (can_flush is_post : Bool) (raw : Text) (s : Server) (c : o.sink.World)
      (w : World o.deps)
      → W moment.session_write
      → ((n : ℕ) → W (moment.history_write n))
      → IsGood s
      → IsGood
          (handle_stream o.deps o.sink o.first_key env moment can_flush is_post raw s c w).0.server
  stream_Good moment can_flush is_post raw s c w a b g =
      elim (handle_stream-settled o.deps o.sink o.first_key env moment can_flush is_post raw s c
        w) [
          | inl (req, asked, fields, of_req, (sessions_so, history_so, router_so)) ↦
              rw (sessions_so, history_so)
                (run_kept moment req.session_id fields s.sessions s.history a b g)
          | inr (failed, sessions_so, history_so, router_so) ↦ rw (sessions_so, history_so) g
        ]

  tick_on_Good :
      (started : Started) (w w' : Write) (cursor : File) (agents : o.net.World)
      (services : World o.deps) (s : Server) (h : History.Store)
      → W w
      → Good s.sessions (some h)
      → Good s.sessions (some (tick_on o started w w' cursor agents services s h).0.store)
  unfolding tick_on
  tick_on_Good started w w' cursor agents services s h a g =
      let opts = scheduler_of started in
      let model =
        reflect_services o.deps o.net (apple_silicon_metal_available o.goos o.goarch) o.client
          s.rag_cfg started.reflector o.unmarshal in
      elim (tick-store model o.deps.history_codec w w' h cursor opts.max_episodes opts.max_chars
        (some (s.router, agents, services))) [
          | inl e ↦ rw e g
          | inr e ↦ rw e (entry_kept w _ s.sessions h a g)
        ]

  tick_Good :
      (started : Started) (w w' : Write) (cursor : File) (agents : o.net.World)
      (services : World o.deps) (s : Server)
      → W w
      → IsGood s
      → IsGood (tick_server o started w w' cursor agents services s)
  unfolding tick_server
  tick_Good started w w' cursor agents services s a g = elim (Option-cases s.history) [
    | inl e ↦ rw (e, tick_server) g
    | inr (h, e) ↦
        rw (e, tick_server)
          (tick_on_Good started w w' cursor agents services s h a (subst (Good s.sessions) e g))
  ]

  serve_Good :
      (moment : Moment) (req : HttpRequest) (ws : Worlds o) (s : Server)
      → W moment.session_write
      → ((n : ℕ) → W (moment.history_write n))
      → IsGood s
      → IsGood (serve o env moment req s ws).server
  unfolding serve serve_at serve_route
  serve_Good moment req ws s a b g = at (o.redirect req.method req.path)
    where
      go : (route : Option Route) → IsGood (serve_found o env moment route req s ws).server
      go none = g
      go (some history_entry) =
          entry_Good (moment.history_write 0) o.entry_error (text_eq req.method (codes "POST"))
            (o.entry req.body) s (b 0) g
      go (some architect) =
          architect_Good moment (text_eq req.method (codes "POST")) req.body s ws.services a b g
      go (some architect_stream) =
          stream_Good moment req.can_flush (text_eq req.method (codes "POST")) req.body s
            ws.connection ws.services a b g
      go (some healthz) = g
      go (some _) = g

      at : (url : Option Text) → IsGood (serve_at o env moment url req s ws).server
      at none = go (route_in mux req.path)
      at (some url) = g

  -- What each of the ways keeps, every run keeps.
  pub run_Good :
      (es : List (Event o)) (s : Server) → All (Allows W) es → IsGood s → IsGood (run o env es s)
  unfolding run step
  run_Good [] s a g = g
  run_Good (request moment req ws ∷ es) s a g =
      run_Good es _ a.1 (serve_Good moment req ws s a.0.0 a.0.1 g)
  run_Good (ticked started w w' cursor agents services ∷ es) s a g =
      run_Good es _ a.1 (tick_Good started w w' cursor agents services s a.0 g)
