-- ===== src/Httpapi/Serve.antt =====
-- internal/httpapi/server.go: the handler behind each route, as one function from a request to its answer and the
-- server after it. Any other path is a 404.
pub mod Refused
use cofiswarm_dispatch.Prelude.{
  ℕ, Text, codes, text_eq, Bool, true, false, Option, none, some, List, [], ◌∷◌, if◌then◌else◌,
}
use cofiswarm_dispatch.Prelude.Decimal.{pos}
use cofiswarm_dispatch.Json.{Value, Fields}
use cofiswarm_dispatch.Agent.Client.{Net, Client}
use cofiswarm_dispatch.Agent.Stream.{StreamNet}
use cofiswarm_dispatch.Backend.Router.{Env, Router, apple_silicon_metal_available}
use cofiswarm_dispatch.Stream.{Sink}
use cofiswarm_dispatch.Reflect.{Lesson}
use cofiswarm_dispatch.Compat
use cofiswarm_dispatch.Compat.{Read}
use cofiswarm_dispatch.Httpapi.{Server, Deps, Moment, World, Response, json, plain}
use cofiswarm_dispatch.Httpapi.Architect.{handle_architect}
use cofiswarm_dispatch.Httpapi.Architect
use cofiswarm_dispatch.Httpapi.Relay.{Ending, handle_stream}
use cofiswarm_dispatch.Httpapi.Relay
use cofiswarm_dispatch.Httpapi.Mux.{
  Route, healthz, api_health, history, history_search, history_entry, architect, architect_stream,
  backend_status, backend_decisions, backend_log, backend_resolve, agent_call, agent_stream,
  rag_db_health, rag_retrieve, session_continuation, swarm_config, models, memory, mlx_pressure,
  mlx_session_clear, clear_cache, cache, cache_clear, cache_config, rag_health, logs, mux, route_in,
}
use cofiswarm_dispatch.Httpapi.Routes.{
  Decoded, ResolveBody, health, handle_history, handle_search, handle_entry, handle_status,
  handle_decisions, handle_log, handle_resolve,
}
use cofiswarm_dispatch.Httpapi.Routes.Services.{
  ContinuationBody, handle_rag_health, handle_rag_retrieve, handle_continuation,
}
use cofiswarm_dispatch.Httpapi.Agents.{
  CallBody, StreamAnswer, handle_agent_call, handle_agent_stream,
}
use cofiswarm_dispatch.Httpapi.Outside.{
  HttpRequest, Outside, Answer, replied, redirected, streamed, agent_streamed, not_found,
}

module _ (o : Outside) where
  -- Each network has a state of its own.
  pub record Worlds : Type 0 where
    pub services : World o.deps
    pub agents : o.net.World
    pub streams : o.stream_net.World
    pub connection : o.sink.World

  pub record Served : Type 0 where
    pub answer : Answer
    pub alerts : List Text
    pub server : Server
    pub worlds : Worlds

  -- An answer that changes nothing.
  just : Response → Server → Worlds → Served
  just r s ws = record { answer = replied r; alerts = []; server = s; worlds = ws }

  serve_backend : HttpRequest → Server → Worlds → Served
  serve_backend req s ws =
      let metal = apple_silicon_metal_available o.goos o.goarch in
      let (r, router) =
        handle_resolve metal (text_eq req.method (codes "POST")) (o.to_resolve req.body) s.router in
      record { answer = replied r; alerts = []; server = record s { router = router }; worlds = ws }

  serve_entry : Moment → HttpRequest → Server → Worlds → Served
  serve_entry moment req s ws =
      let (r, s') =
        handle_entry o.deps.history_codec (moment.history_write 0) o.entry_error
          (text_eq req.method (codes "POST")) (o.entry req.body) s in
      record { answer = replied r; alerts = []; server = s'; worlds = ws }

  serve_architect : Env → Moment → HttpRequest → Server → Worlds → Served
  serve_architect env moment req s ws =
      let (h, w) =
        handle_architect o.deps env moment (text_eq req.method (codes "POST")) req.body s
          ws.services in
      record {
        answer = replied h.response;
        alerts = h.alerts;
        server = h.server;
        worlds = record ws { services = w };
      }

  serve_stream : Env → Moment → HttpRequest → Server → Worlds → Served
  serve_stream env moment req s ws =
      let (h, c, w) =
        handle_stream o.deps o.sink o.first_key env moment req.can_flush
          (text_eq req.method (codes "POST")) req.body s ws.connection ws.services in
      record {
        answer = streamed h.ending;
        alerts = h.alerts;
        server = h.server;
        worlds = record ws { services = w; connection = c };
      }

  serve_call : HttpRequest → Server → Worlds → Served
  serve_call req s ws =
      let (r, router, w) =
        handle_agent_call o.net o.deps.ops (apple_silicon_metal_available o.goos o.goarch) o.client
          (text_eq req.method (codes "POST")) (o.call req.body) s.router ws.agents in
      record {
        answer = replied r;
        alerts = [];
        server = record s { router = router };
        worlds = record ws { agents = w };
      }

  serve_agent_stream : HttpRequest → Server → Worlds → Served
  serve_agent_stream req s ws =
      let (r, router, c, w) =
        handle_agent_stream o.stream_net o.sink (apple_silicon_metal_available o.goos o.goarch)
          o.client req.can_flush (text_eq req.method (codes "POST")) req.cancelled (o.call req.body)
          s.router ws.connection ws.streams in
      record {
        answer = agent_streamed r;
        alerts = [];
        server = record s { router = router };
        worlds = record ws { streams = w; connection = c };
      }

  -- The services behind the routes that only ask them.
  with_services : Response × World o.deps → Server → Worlds → Served
  with_services (r, w) s ws = record {
    answer = replied r;
    alerts = [];
    server = s;
    worlds = record ws { services = w };
  }

  unfoldable pub serve_route : Env → Moment → Route → HttpRequest → Server → Worlds → Served
  unfolding just serve_backend serve_entry serve_architect serve_stream serve_call
      serve_agent_stream with_services
  serve_route env moment healthz req s ws = just (plain 200 (codes "ok")) s ws
  serve_route env moment api_health req s ws = just health s ws
  serve_route env moment history req s ws =
      just (handle_history (text_eq req.method (codes "GET")) s) s ws
  serve_route env moment history_search req s ws =
      just (handle_search o.deps.lower (req.query (codes "q")) (req.query (codes "limit")) s) s ws
  serve_route env moment history_entry req s ws = serve_entry moment req s ws
  serve_route env moment architect req s ws = serve_architect env moment req s ws
  serve_route env moment architect_stream req s ws = serve_stream env moment req s ws
  serve_route env moment backend_status req s ws = just (handle_status s) s ws
  serve_route env moment backend_decisions req s ws = just (handle_decisions s) s ws
  serve_route env moment backend_log req s ws = just (handle_log s) s ws
  serve_route env moment backend_resolve req s ws = serve_backend req s ws
  serve_route env moment agent_call req s ws = serve_call req s ws
  serve_route env moment agent_stream req s ws = serve_agent_stream req s ws
  serve_route env moment rag_db_health req s ws =
      with_services (handle_rag_health o.deps s ws.services) s ws
  serve_route env moment rag_retrieve req s ws =
      with_services
        (handle_rag_retrieve o.deps (text_eq req.method (codes "POST")) (o.rag_query req.body) s
          ws.services)
        s ws
  serve_route env moment session_continuation req s ws =
      just
        (handle_continuation o.deps (text_eq req.method (codes "POST")) (o.continuation req.body) s)
        s ws
  serve_route env moment swarm_config req s ws =
      just (Compat.serve_swarm_config env o.read_file (text_eq req.method (codes "GET"))) s ws
  serve_route env moment models req s ws =
      just (Compat.serve_models env o.join o.read_file o.groups (text_eq req.method (codes "GET")))
        s ws
  serve_route env moment memory req s ws = just Compat.serve_memory s ws
  serve_route env moment mlx_pressure req s ws =
      with_services (Compat.serve_mlx_pressure env o.deps.network o.endpoints ws.services) s ws
  serve_route env moment mlx_session_clear req s ws =
      just (Compat.serve_mlx_session_clear (text_eq req.method (codes "POST"))) s ws
  serve_route env moment clear_cache req s ws =
      just (Compat.serve_clear_cache (text_eq req.method (codes "POST"))) s ws
  serve_route env moment cache req s ws = just Compat.serve_cache s ws
  serve_route env moment cache_clear req s ws =
      just (Compat.serve_cache_clear (text_eq req.method (codes "POST"))) s ws
  serve_route env moment cache_config req s ws =
      just (Compat.serve_cache_config (text_eq req.method (codes "POST"))) s ws
  serve_route env moment rag_health req s ws =
      with_services (Compat.proxy_rag_health env o.deps.network ws.services) s ws
  serve_route env moment logs req s ws = just Compat.serve_logs s ws

  pub serve_found : Env → Moment → Option Route → HttpRequest → Server → Worlds → Served
  serve_found env moment none req s ws = record {
    answer = not_found;
    alerts = [];
    server = s;
    worlds = ws;
  }
  serve_found env moment (some route) req s ws = serve_route env moment route req s ws

  -- The multiplexer redirects before it looks for a route.
  unfoldable pub serve_at : Env → Moment → Option Text → HttpRequest → Server → Worlds → Served
  unfolding serve_found
  serve_at env moment (some url) req s ws = record {
    answer = redirected url;
    alerts = [];
    server = s;
    worlds = ws;
  }
  serve_at env moment none req s ws = serve_found env moment (route_in mux req.path) req s ws

  unfoldable pub serve : Env → Moment → HttpRequest → Server → Worlds → Served
  unfolding serve_at
  serve env moment req s ws = serve_at env moment (o.redirect req.method req.path) req s ws
