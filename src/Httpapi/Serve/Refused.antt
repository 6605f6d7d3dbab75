-- ===== src/Httpapi/Serve/Refused.antt =====
-- Requests that are refused by their path or their method.
use cofiswarm_dispatch.Prelude.{
  ℕ, Text, codes, text_eq, Option, none, some, [], if◌then◌else◌, ◌≡◌, arith,
}
use cofiswarm_dispatch.Backend.Router.{Env}
use cofiswarm_dispatch.Compat.{
  serve_swarm_config, serve_models, serve_mlx_session_clear, serve_cache_clear, serve_cache_config,
  serve_clear_cache,
}
use cofiswarm_dispatch.Httpapi.{Server, Moment, Response, plain, post_only}
use cofiswarm_dispatch.Httpapi.Agents
use cofiswarm_dispatch.Httpapi.Agents.{handle_agent_call, handle_agent_stream}
use cofiswarm_dispatch.Httpapi.Architect.{handle_architect}
use cofiswarm_dispatch.Httpapi.Relay
use cofiswarm_dispatch.Httpapi.Relay.{handle_stream}
use cofiswarm_dispatch.Httpapi.Routes.{get_only, handle_history, handle_entry, handle_resolve}
use cofiswarm_dispatch.Httpapi.Routes.Services.{handle_rag_retrieve, handle_continuation}
use cofiswarm_dispatch.Httpapi.Mux.{
  Route, healthz, history, history_entry, architect, architect_stream, backend_resolve, agent_call,
  agent_stream, rag_retrieve, session_continuation, swarm_config, models, mlx_session_clear,
  clear_cache, cache_clear, cache_config, mux, route_in,
}
use cofiswarm_dispatch.Httpapi.Outside.{
  Outside, HttpRequest, Answer, replied, streamed, agent_streamed,
}
use cofiswarm_dispatch.Httpapi.Serve.{Worlds, Served, serve_at, serve_found, serve_route, serve}

-- The method of the routes that have one.
abbrev pub method_of : Route → Option Text
method_of history = some (codes "GET")
method_of swarm_config = some (codes "GET")
method_of models = some (codes "GET")
method_of history_entry = some (codes "POST")
method_of architect = some (codes "POST")
method_of architect_stream = some (codes "POST")
method_of backend_resolve = some (codes "POST")
method_of agent_call = some (codes "POST")
method_of agent_stream = some (codes "POST")
method_of rag_retrieve = some (codes "POST")
method_of session_continuation = some (codes "POST")
method_of mlx_session_clear = some (codes "POST")
method_of clear_cache = some (codes "POST")
method_of cache_clear = some (codes "POST")
method_of cache_config = some (codes "POST")
method_of _ = none

abbrev by_method : Text → Option Text → Option ℕ
by_method method none = none
by_method method (some m) = if text_eq method m then none else some 405

abbrev by_route : Text → Option Route → Option ℕ
by_route method none = some 404
by_route method (some route) = by_method method (method_of route)

-- The status with which a request is refused, if it is.
abbrev pub refusal : HttpRequest → Option ℕ
refusal req = by_route req.method (route_in mux req.path)

abbrev plain_status : Response → Option ℕ
plain_status (plain status message) = some status
plain_status _ = none

-- The status of a plain answer.
abbrev pub refused_with : Answer → Option ℕ
refused_with (replied r) = plain_status r
refused_with (streamed (Relay.rejected r)) = plain_status r
refused_with (agent_streamed (Agents.rejected r)) = plain_status r
refused_with _ = none

module _ (o : Outside) (env : Env) (moment : Moment) (req : HttpRequest) (s : Server)
    (ws : Worlds o) where
  abbrev pub IsRefused : ℕ → Served o → Type 0
  IsRefused status served =
      (refused_with served.answer ≡ some status)
      × (served.server ≡ s)
      × (served.alerts ≡ [])
      × (served.worlds ≡ ws)

  route-IsRefused :
      (route : Route) (status : ℕ)
      → by_route req.method (some route) ≡ some status
      → IsRefused status (serve_route o env moment route req s ws)
  unfolding serve_route handle_history get_only post_only handle_entry handle_architect
      handle_stream handle_resolve handle_agent_call handle_agent_stream handle_rag_retrieve
      handle_continuation serve_swarm_config serve_models serve_mlx_session_clear serve_cache_clear
      serve_cache_config serve_clear_cache
  route-IsRefused healthz status h = cc
  route-IsRefused _ status h = ground arith

  found-IsRefused :
      (found : Option Route) (status : ℕ)
      → by_route req.method found ≡ some status
      → IsRefused status (serve_found o env moment found req s ws)
  unfolding serve_found
  found-IsRefused none status h = ground arith
  found-IsRefused (some route) status h = route-IsRefused route status h

  -- For a request that the multiplexer does not redirect: one whose path is not registered is answered with a 404, and one whose route has a method, other than the
  -- request's, with a 405. Such a request sends no alert, asks no service and leaves the server as it was.
  pub serve-IsRefused :
      (status : ℕ)
      → o.redirect req.method req.path ≡ none
      → refusal req ≡ some status
      → IsRefused status (serve o env moment req s ws)
  unfolding serve serve_at
  serve-IsRefused status stays h =
      rw (stays, serve_at) (found-IsRefused (route_in mux req.path) status h)
