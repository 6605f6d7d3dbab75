-- ===== src/Compat.antt =====
-- internal/compat/routes.go: the old routes. The network, the file system, `filepath.Join` and the JSON of the
-- files and answers are parameters.
pub mod Models
pub mod Tests
use cofiswarm_dispatch.Prelude.{
  ℕ, Text, codes, text_eq, is_empty, Bool, true, false, not, ◌&&◌, ◌||◌, Option, none, some, List,
  [], ◌∷◌, ◌++◌, if◌then◌else◌,
}
use cofiswarm_dispatch.Prelude.Decimal.{pos}
use cofiswarm_dispatch.Prelude.Space.{trim_right_slash}
use cofiswarm_dispatch.Json.{
  Value, null, yes_value, no_value, int, text, array, object, Items, nil, cons, Fields, end, field,
}
use cofiswarm_dispatch.Backend.Router.{Env}
use cofiswarm_dispatch.Http.{Reply, no_connection, answer, Network}
use cofiswarm_dispatch.Httpapi.{Response, json, plain, copied, post_only}
use cofiswarm_dispatch.Httpapi.Routes.{get_only}

-- A file's bytes, or the error of reading it.
pub data Read : Type 0 where
  unread content : Text → Read

abbrev status_ok : Response
status_ok = json 200 (object (field (codes "status") (text (codes "ok")) end))

env_or : Env → (key def : Text) → Text
env_or env key def = let v = env key in if is_empty v then def else v

config_answer : Read → Response
config_answer (unread e) = plain 404 e
config_answer (content b) = copied 200 b

unfoldable pub serve_swarm_config : Env → (Text → Read) → (is_get : Bool) → Response
unfolding env_or config_answer
serve_swarm_config env read_file is_get =
    if is_get
    then config_answer (
        read_file (
          env_or env (codes "COFISWARM_SWARM_CONFIG")
            (codes "/etc/cofiswarm/config/swarm-config.json")))
    else get_only

unfoldable pub is_seen : Text → List Text → Bool
is_seen m [] = false
is_seen m (s ∷ seen) = text_eq m s || is_seen m seen

-- The loop: `models` are also those that were seen.
unfoldable pub add_models : List Text → List Text → List Text
unfolding is_seen
add_models [] models = models
add_models (m ∷ groups) models =
    add_models groups
      (if not (is_empty m) && not (is_seen m models) then models ++ m ∷ [] else models)

groups_of : Option (List Text) → List Text
groups_of none = []
groups_of (some groups) = groups

-- `groups` are the models of the manifest's server groups; none if it does not parse.
models_in : (groups : Text → Option (List Text)) → Read → List Text
unfolding add_models groups_of
models_in groups (unread e) = []
models_in groups (content b) = add_models (groups_of (groups b)) []

manifest_path : Env → (join : List Text → Text) → Text
manifest_path env join =
    let home = env (codes "HOME") in
    env_or env (codes "COFISWARM_MODELS_MANIFEST") (
      if is_empty home
      then []
      else join (
          home
          ∷ codes "cofiswarm"
          ∷ codes "repos"
          ∷ codes "cofiswarm-models"
          ∷ codes "catalog"
          ∷ codes "manifest.json"
          ∷ []))

text_items : List Text → Items
text_items [] = nil
text_items (t ∷ ts) = cons (text t) (text_items ts)

unfoldable pub serve_models :
    Env
    → (join : List Text → Text) → (Text → Read)
    → (groups : Text → Option (List Text)) → (is_get : Bool) → Response
unfolding models_in manifest_path text_items env_or
serve_models env join read_file groups is_get =
    if is_get
    then json 200 (array (text_items (models_in groups (read_file (manifest_path env join)))))
    else get_only

unfoldable pub serve_memory : Response
serve_memory = json 200 (
    object (
      field (codes "ok") yes_value (
        field (codes "source") (text (codes "stub"))
          (field (codes "note") (text (codes "host memory via slot-manager sprint 17+")) end))))

no_endpoints : Value
no_endpoints =
    object (field (codes "endpoints") (array nil) (field (codes "unified_memory") null end))

-- `endpoints` decodes an answer's array; what does not decode is nil.
pressure_answer : (endpoints : Text → Value) → Reply → Response
unfolding no_endpoints
pressure_answer endpoints (no_connection e) = json 200 no_endpoints
pressure_answer endpoints (answer status body) = json 200 (
    object (
      field (codes "endpoints") (endpoints body) (
        field (codes "unified_memory") null
          (field (codes "source") (text (codes "slot-manager")) end))))

-- `proxyRagHealth` passes an answer on.
proxied : Reply → Response
proxied (no_connection e) =
    json 200 (object (field (codes "ok") no_value (field (codes "error") (text e) end)))
proxied (answer status body) = copied status body

unfoldable pub serve_mlx_pressure :
    Env → (net : Network) → (endpoints : Text → Value) → net.World → Response × net.World
unfolding pressure_answer env_or
serve_mlx_pressure env net endpoints w =
    let upstream =
      env_or env (codes "COFISWARM_SLOT_MANAGER_URL") (codes "http://127.0.0.1:8013") in
    let (reply, w') = net.get (trim_right_slash upstream ++ codes "/api/pressure") none w in
    (pressure_answer endpoints reply, w')

unfoldable pub proxy_rag_health : Env → (net : Network) → net.World → Response × net.World
unfolding proxied env_or
proxy_rag_health env net w =
    let base = env_or env (codes "COFISWARM_RAG_URL") (codes "http://127.0.0.1:8001") in
    let (reply, w') = net.get (trim_right_slash base ++ codes "/health") (some (pos 3)) w in
    (proxied reply, w')

unfoldable pub serve_mlx_session_clear : (is_post : Bool) → Response
serve_mlx_session_clear is_post = if is_post then status_ok else post_only

unfoldable pub serve_cache_clear : (is_post : Bool) → Response
serve_cache_clear is_post = if is_post then status_ok else post_only

unfoldable pub serve_cache_config : (is_post : Bool) → Response
serve_cache_config is_post = if is_post then status_ok else post_only

unfoldable pub serve_clear_cache : (is_post : Bool) → Response
serve_clear_cache is_post =
    if is_post
    then json 200 (
        object (
          field (codes "status") (text (codes "ok"))
            (field (codes "note") (text (codes "kvpool eviction sprint 17+")) end)))
    else post_only

unfoldable pub serve_cache : Response
serve_cache =
    json 200 (object (field (codes "enabled") no_value (field (codes "entries") (int (pos 0)) end)))

unfoldable pub serve_logs : Response
serve_logs = json 200 (object (field (codes "logs") (array nil) end))
