-- ===== src/Httpapi/Run/Quiet.antt =====
-- The router over a run of the server.
use cofiswarm_dispatch.Prelude.{
  Text, codes, text_eq, Bool, true, false, Option, none, some, List, [], ◌∷◌, ◌≡◌, ◌⊎◌, refl, subst,
  arith, inl, inr, Option-cases,
}
use cofiswarm_dispatch.Disk.{File, Write}
use cofiswarm_dispatch.Backend.Router.{
  Router, Env, init, configure_from_startup, apple_silicon_metal_available,
}
use cofiswarm_dispatch.Backend.Router.Quiet.{IsQuiet, clear_context-IsQuiet}
use cofiswarm_dispatch.History
use cofiswarm_dispatch.Session.Store
use cofiswarm_dispatch.Stream.{Sink}
use cofiswarm_dispatch.Httpapi.{
  Server, Deps, Moment, World, panicked, new_server, leave_context, keep_run,
}
use cofiswarm_dispatch.Httpapi.Architect.{handle_architect, conclude}
use cofiswarm_dispatch.Httpapi.Architect.Persist.{handle_architect-P}
use cofiswarm_dispatch.Httpapi.Routes.{Decoded, malformed, decoded}
use cofiswarm_dispatch.Httpapi.Outside.{Outside, HttpRequest, Answer, replied}
use cofiswarm_dispatch.Httpapi.Serve.{Worlds, serve_at, serve_found, serve_route, serve}
use cofiswarm_dispatch.Httpapi.Run.{Event, request, ticked, tick_server, step, run}
use cofiswarm_dispatch.Httpapi.Reflection.{Started}
use cofiswarm_dispatch.Httpapi.Mux.{
  Route, healthz, history_entry, architect, architect_stream, backend_resolve, agent_call,
  agent_stream, mux, route_in,
}
use cofiswarm_dispatch.Httpapi.Run.Calls.{
  call-IsQuiet, stream-IsQuiet, resolve-IsQuiet, tick_on-IsQuiet,
}
use cofiswarm_dispatch.Httpapi.Relay.{handle_stream}
use cofiswarm_dispatch.Httpapi.Relay.Persist.{handle_stream-settled}
use cofiswarm_dispatch.Httpapi.Routes.{handle_entry}
use cofiswarm_dispatch.Prepare.{Request, RagResult}
use cofiswarm_dispatch.Modes.{Executed, failed, returned}
use cofiswarm_dispatch.Json.{Fields, lookup}
use cofiswarm_dispatch.Httpapi.{enter_context}
use cofiswarm_dispatch.Httpapi.Architect.Persist.{with_cache}

conclude-IsQuiet :
    (deps : Deps) (moment : Moment) (req : Request) (mode : Text) (compaction : Option Fields)
    (res : RagResult) (executed : Executed) (inside : Router) (s : Server)
    → let h = conclude deps moment req mode compaction res executed inside s in
      (h.response ≡ panicked) ⊎ IsQuiet h.server.router
unfolding conclude keep_run leave_context
conclude-IsQuiet deps moment req mode compaction res (failed cause) inside s =
    inr (clear_context-IsQuiet inside)
conclude-IsQuiet deps moment req mode compaction res (returned none) inside s = inl refl
conclude-IsQuiet deps moment req mode compaction res (returned (some envelope)) inside s =
    inr (clear_context-IsQuiet inside)

architect-IsQuiet :
    (deps : Deps) (env : Env) (moment : Moment) (is_post : Bool) (raw : Text) (s : Server)
    (w : World deps)
    → IsQuiet s.router
    → let h = (handle_architect deps env moment is_post raw s w).0 in
      (h.response ≡ panicked) ⊎ IsQuiet h.server.router
architect-IsQuiet deps env moment is_post raw s w q =
    handle_architect-P deps env moment raw s
      (λ h. (h.response ≡ panicked) ⊎ IsQuiet h.server.router) (λ response alerts cache e. inr q)
      (λ req mode compaction res executed cache asked.
        conclude-IsQuiet deps moment req mode compaction res executed
          (enter_context mode req.kv_pressure s.router) (with_cache cache s))
      is_post w

entry-router :
    (codec : History.Codec) (w : Write) (cause : Text) (is_post : Bool) (entry : Decoded Fields)
    (s : Server)
    → (handle_entry codec w cause is_post entry s).1.router ≡ s.router
unfolding handle_entry
entry-router codec w cause false entry s = refl
entry-router codec w cause true (malformed e) s = refl
entry-router codec w cause true (decoded entry) s = elim (Option-cases s.history) [
  | inl e ↦ rw (e, handle_entry)
  | inr (h, e) ↦ rw (e, handle_entry)
]

stream-router :
    (deps : Deps) (sink : Sink) (first_key : Fields → Text) (env : Env) (moment : Moment)
    (can_flush is_post : Bool) (raw : Text) (s : Server) (c : sink.World) (w : World deps)
    → IsQuiet s.router
    → IsQuiet
        (handle_stream deps sink first_key env moment can_flush is_post raw s c w).0.server.router
stream-router deps sink first_key env moment can_flush is_post raw s c w q =
    elim (handle_stream-settled deps sink first_key env moment can_flush is_post raw s c w) [
      | inl (req, asked, fields, of_req, (sessions_so, history_so, router_so)) ↦ rw router_so q
      | inr (unanswered, sessions_so, history_so, router_so) ↦ rw router_so q
    ]

-- Whether an answer is a panic of a handler that is no stream.
abbrev pub is_panic : Answer → Bool
is_panic (replied panicked) = true
is_panic _ = false

new_server-IsQuiet :
    (env : Env) (sessions : Store.Store) (log : Option History.Store) (has_alerter : Bool)
    → IsQuiet (new_server env sessions log has_alerter).router
unfolding new_server configure_from_startup init lookup
new_server-IsQuiet env sessions log has_alerter = ground arith

module _ (o : Outside) (env : Env) where
  serve-IsQuiet :
      (moment : Moment) (req : HttpRequest) (ws : Worlds o) (s : Server)
      → is_panic (serve o env moment req s ws).answer ≡ false
      → IsQuiet s.router
      → IsQuiet (serve o env moment req s ws).server.router
  unfolding serve serve_at serve_route
  serve-IsQuiet moment req ws s fine q = at (o.redirect req.method req.path) fine
    where
      go :
          (route : Option Route)
          → is_panic (serve_found o env moment route req s ws).answer ≡ false
          → IsQuiet (serve_found o env moment route req s ws).server.router
      go none f = q
      go (some architect) f =
          elim (architect-IsQuiet o.deps env moment (text_eq req.method (codes "POST")) req.body s
            ws.services q) [
              | inl e ↦ cc (subst (λ r. is_panic (replied r) ≡ false) e f)
              | inr q' ↦ q'
            ]
      go (some architect_stream) f =
          stream-router o.deps o.sink o.first_key env moment req.can_flush
            (text_eq req.method (codes "POST")) req.body s ws.connection ws.services q
      go (some history_entry) f =
          rw
            (entry-router o.deps.history_codec (moment.history_write 0) o.entry_error
              (text_eq req.method (codes "POST")) (o.entry req.body) s)
            q
      go (some backend_resolve) f =
          resolve-IsQuiet (apple_silicon_metal_available o.goos o.goarch)
            (text_eq req.method (codes "POST")) (o.to_resolve req.body) s.router q
      go (some agent_call) f =
          call-IsQuiet o.net o.deps.ops (apple_silicon_metal_available o.goos o.goarch) o.client
            (text_eq req.method (codes "POST")) (o.call req.body) s.router ws.agents q
      go (some agent_stream) f =
          stream-IsQuiet o.stream_net o.sink (apple_silicon_metal_available o.goos o.goarch)
            o.client req.can_flush (text_eq req.method (codes "POST")) req.cancelled
            (o.call req.body) s.router ws.connection ws.streams q
      go (some healthz) f = q
      go (some _) f = q

      at :
          (url : Option Text)
          → is_panic (serve_at o env moment url req s ws).answer ≡ false
          → IsQuiet (serve_at o env moment url req s ws).server.router
      at none f = go (route_in mux req.path) f
      at (some url) f = q

  tick_server-IsQuiet :
      (started : Started) (w w' : Write) (cursor : File) (agents : o.net.World)
      (services : World o.deps) (s : Server)
      → IsQuiet s.router
      → IsQuiet (tick_server o started w w' cursor agents services s).router
  unfolding tick_server
  tick_server-IsQuiet started w w' cursor agents services s q = elim (Option-cases s.history) [
    | inl e ↦ rw (e, tick_server) q
    | inr (h, e) ↦ rw (e, tick_server) (tick_on-IsQuiet o started w w' cursor agents services s h q)
  ]

  abbrev pub has_panicked : Event o → Server → Bool
  has_panicked (request moment req ws) s = is_panic (serve o env moment req s ws).answer
  has_panicked (ticked started w w' cursor agents services) s = false

  -- No request of the run is answered with a panic.
  abbrev pub NoPanic : List (Event o) → Server → Type 0
  NoPanic [] s = Unit
  NoPanic (e ∷ es) s = (has_panicked e s ≡ false) × NoPanic es (step o env e s)

  run-kept :
      (es : List (Event o)) (s : Server)
      → NoPanic es s
      → IsQuiet s.router
      → IsQuiet (run o env es s).router
  unfolding run step
  run-kept [] s fine q = q
  run-kept (request moment req ws ∷ es) s fine q =
      run-kept es _ fine.1 (serve-IsQuiet moment req ws s fine.0 q)
  run-kept (ticked started w w' cursor agents services ∷ es) s fine q =
      run-kept es _ fine.1 (tick_server-IsQuiet started w w' cursor agents services s q)

  -- A new server, on any environment and stores, over any requests, one after another, and ticks of the reflection,
  -- none of the requests answered with a panic: the router has neither a context nor current decisions.
  pub run-IsQuiet :
      (sessions : Store.Store) (log : Option History.Store) (has_alerter : Bool)
      (es : List (Event o))
      → NoPanic es (new_server env sessions log has_alerter)
      → IsQuiet (run o env es (new_server env sessions log has_alerter)).router
  run-IsQuiet sessions log has_alerter es fine =
      run-kept es (new_server env sessions log has_alerter) fine
        (new_server-IsQuiet env sessions log has_alerter)
