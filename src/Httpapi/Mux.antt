-- ===== src/Httpapi/Mux.antt =====
-- internal/httpapi/server.go: `Handler`, the routes that the files of internal/httpapi and internal/compat
-- register. The multiplexer of net/http finds a path that was registered with no slash at its end only as it is.
use cofiswarm_dispatch.Prelude.{
  Text, codes, text_eq, Option, none, some, List, [], ◌∷◌, if◌then◌else◌,
}

pub data Route : Type 0 where
  healthz api_health history history_search history_entry architect architect_stream : Route
  backend_status backend_decisions backend_log backend_resolve : Route
  agent_call agent_stream rag_db_health rag_retrieve session_continuation : Route
  swarm_config models memory mlx_pressure mlx_session_clear clear_cache cache cache_clear : Route
  cache_config rag_health logs : Route

-- `compat.Register`.
compat_routes : List (Text × Route)
compat_routes =
    (codes "/api/swarm-config", swarm_config)
    ∷ (codes "/api/models", models)
    ∷ (codes "/api/memory", memory)
    ∷ (codes "/api/mlx/pressure", mlx_pressure)
    ∷ (codes "/api/mlx/session/clear", mlx_session_clear)
    ∷ (codes "/api/clear-cache", clear_cache)
    ∷ (codes "/api/cache", cache)
    ∷ (codes "/api/cache/clear", cache_clear)
    ∷ (codes "/api/cache/config", cache_config)
    ∷ (codes "/api/rag/health", rag_health)
    ∷ (codes "/api/logs", logs)
    ∷ []

session_routes : List (Text × Route)
unfolding compat_routes
session_routes = (codes "/api/session/continuation", session_continuation) ∷ compat_routes

rag_routes : List (Text × Route)
unfolding session_routes
rag_routes =
    (codes "/api/rag/db-health", rag_db_health)
    ∷ (codes "/api/rag/retrieve", rag_retrieve)
    ∷ session_routes

agent_routes : List (Text × Route)
unfolding rag_routes
agent_routes =
    (codes "/api/agent/call", agent_call) ∷ (codes "/api/agent/stream", agent_stream) ∷ rag_routes

backend_routes : List (Text × Route)
unfolding agent_routes
backend_routes =
    (codes "/api/backend/status", backend_status)
    ∷ (codes "/api/backend/decisions", backend_decisions)
    ∷ (codes "/api/backend/log", backend_log)
    ∷ (codes "/api/backend/resolve", backend_resolve)
    ∷ agent_routes

-- The multiplexer of `Handler`; each list is followed by those registered after it.
unfoldable pub mux : List (Text × Route)
unfolding backend_routes
mux =
    (codes "/healthz", healthz)
    ∷ (codes "/api/health", api_health)
    ∷ (codes "/api/history", history)
    ∷ (codes "/api/history/search", history_search)
    ∷ (codes "/api/history/entry", history_entry)
    ∷ (codes "/api/architect", architect)
    ∷ (codes "/api/architect/stream", architect_stream)
    ∷ backend_routes

unfoldable pub route_in : List (Text × Route) → Text → Option Route
route_in [] path = none
route_in ((p, route) ∷ more) path = if text_eq p path then some route else route_in more path
