-- ===== src/Modes.antt =====
-- internal/modes/relay.go and stream.go: the client of the mode services. The network, the JSON of requests
-- and answers, `strings.ToLower` and the response writer are parameters.
use cofiswarm_dispatch.Prelude.{
  ℕ, Text, codes, text_eq, is_empty, Bool, true, false, ◌||◌, Option, none, some, List, [], ◌∷◌,
  ◌++◌, ltb, leb, ◌==◌, if◌then◌else◌,
}
use mathlib.Core.List.{flatten}
use cofiswarm_dispatch.Prelude.Decimal.{ℤ, pos, negsuc, atoi}
use cofiswarm_dispatch.Prelude.Space.{trim_space, trim_right_slash}
use cofiswarm_dispatch.Json.{text, int, object, Fields, end, field}
use cofiswarm_dispatch.Backend.Router.{Env}
use cofiswarm_dispatch.Agent.{decimal}
use cofiswarm_dispatch.Http.{Reply, no_connection, answer, StreamReply, refused, streaming, Network}

-- Go's `switch` on the name; another name stays as it was given.
unfoldable pub normalize : (lower : Text → Text) → Text → Text
normalize lower name =
    let key = trim_space (lower name) in
    if is_empty key || text_eq key (codes "flat") || text_eq key (codes "mode-flat")
    then codes "flat"
    else if text_eq key (codes "pipeline") || text_eq key (codes "mode-pipeline")
    then codes "pipeline"
    else if text_eq key (codes "cascade") || text_eq key (codes "mode-cascade")
    then codes "cascade"
    else if text_eq key (codes "router") || text_eq key (codes "mode-router")
    then codes "router"
    else name

-- `modePorts`, with the variable that overrides each.
unfoldable pub mode_port : Text → Option (ℕ × Text)
mode_port key =
    if text_eq key (codes "flat")
    then some (8021, codes "COFISWARM_MODE_FLAT_PORT")
    else if text_eq key (codes "pipeline")
    then some (8022, codes "COFISWARM_MODE_PIPELINE_PORT")
    else if text_eq key (codes "cascade")
    then some (8023, codes "COFISWARM_MODE_CASCADE_PORT")
    else if text_eq key (codes "router")
    then some (8024, codes "COFISWARM_MODE_ROUTER_PORT")
    else none

-- `n > 0` for a variable that reads as a number.
unfoldable pub positive_or : ℕ → Option ℤ → ℤ
positive_or def none = pos def
positive_or def (some (negsuc n)) = pos def
positive_or def (some (pos n)) = if ltb 0 n then pos n else pos def

unfoldable pub port : (lower : Text → Text) → Env → Text → Option ℤ
unfolding positive_or
port lower env mode = elim (mode_port (normalize lower mode)) [
  | none ↦ none
  | some (def, key) ↦ some (positive_or def (atoi (env key)))
]

unfoldable pub base_url : Env → Text
base_url env =
    let v = env (codes "COFISWARM_MODE_HOST") in
    if is_empty v then codes "http://127.0.0.1" else trim_right_slash v

unfoldable pub registry_url : Env → Text
registry_url env =
    let v = env (codes "COFISWARM_AGENT_REGISTRY_URL") in
    if is_empty v then codes "http://127.0.0.1:8012" else trim_right_slash v

unfoldable pub bus_route_url : Env → Text
bus_route_url env =
    let base = env (codes "COFISWARM_BRIDGE_URL") in
    if is_empty (env (codes "COFISWARM_ROUTE_BUS")) || is_empty base
    then []
    else trim_right_slash base

unfoldable pub execute_timeout : Env → ℕ → ℤ
unfolding positive_or
execute_timeout env def = positive_or def (atoi (env (codes "COFISWARM_MODE_EXECUTE_TIMEOUT")))

pub data ModeError : Type 0 where
  unknown_mode no_responder timed_out : Text → ModeError
  unreachable : Text → ModeError
  bus_refused plugin_refused stream_refused : (mode body : Text) → ModeError
  undecodable not_streaming : ModeError
  broken_copy : ModeError

-- A result is a map, or nil where the answer was `null`.
pub data Executed : Type 0 where
  failed : ModeError → Executed
  returned : Option Fields → Executed

pub record Formats : Type 0 where
  pub marshal : Fields → Text
  -- An answer as a map; `null` decodes to nil.
  pub unmarshal : Text → Option (Option Fields)
  -- The mode named in the registry's answer; none if it does not decode.
  pub active : Text → Option Text

-- A `mode_config` that is empty is left out.
unfoldable pub payload : (prompt : Text) → (mode_config : Fields) → Fields
payload prompt end = field (codes "prompt") (text prompt) end
payload prompt (field k v m) =
    field (codes "prompt") (text prompt) (field (codes "mode_config") (object (field k v m)) end)

decoded : Option (Option Fields) → Executed
decoded none = failed undecodable
decoded (some envelope) = returned envelope

flat_if_empty : (lower : Text → Text) → Option Text → Text
flat_if_empty lower none = codes "flat"
flat_if_empty lower (some mode) = if is_empty mode then codes "flat" else normalize lower mode

-- `io.Copy`: a failed write ends it, and so does a body that breaks off. `true` is a nil error.
module _ (Client : Type 0) (write : Text → Client → Bool × Client) where
  copy : List Text → (broken : Bool) → Client → Bool × Client
  copy [] broken c = (elim broken [ true ↦ false | false ↦ true ], c)
  copy (chunk ∷ chunks) broken c =
      let (ok, c') = write chunk c in
      let rest = copy chunks broken c' in if ok then rest else (false, c')

  read_stream : Text → StreamReply → Client → Option ModeError × Client
  unfolding copy
  read_stream mode (refused e) c = (some (unreachable e), c)
  read_stream mode (streaming status chunks broken) c =
      let (ok, c') = copy chunks broken c in
      if status == 501
      then (some not_streaming, c)
      else if leb 300 status
      then (some (stream_refused mode (flatten chunks)), c)
      else (if ok then none else some broken_copy, c')

module _ (net : Network) (formats : Formats) (lower : Text → Text) where
  open net use {World, get, post, post_stream}
  open formats use {marshal, unmarshal, active}

  read_active : Reply → Text
  unfolding flat_if_empty
  read_active (no_connection e) = codes "flat"
  read_active (answer status body) = flat_if_empty lower (active body)

  unfoldable pub active_mode : Env → World → Text × World
  unfolding read_active
  active_mode env w =
      let (reply, w') = get (registry_url env ++ codes "/api/modes/active") (some (pos 2)) w in
      (read_active reply, w')

  read_bus : Text → Reply → Executed
  unfolding decoded
  read_bus mode (no_connection e) = failed (unreachable e)
  read_bus mode (answer status body) =
      if status == 503
      then failed (no_responder mode)
      else if status == 504
      then failed (timed_out mode)
      else if leb 300 status
      then failed (bus_refused mode body)
      else decoded (unmarshal body)

  bus_body : (mode prompt : Text) → Fields → Fields
  bus_body mode prompt mode_config =
      field (codes "subject") (text (codes "swarm.observer.mode." ++ normalize lower mode)) (
        field (codes "payload") (object (payload prompt mode_config))
          (field (codes "timeout_ms") (int (pos 120000)) end))

  unfoldable pub execute_via_bus : (bridge mode prompt : Text) → Fields → World → Executed × World
  unfolding read_bus bus_body
  execute_via_bus bridge mode prompt mode_config w =
      let (reply, w') =
        post (bridge ++ codes "/v1/request") (marshal (bus_body mode prompt mode_config)) none w in
      (read_bus mode reply, w')

  read_plugin : Text → Reply → Executed
  unfolding decoded
  read_plugin mode (no_connection e) = failed (unreachable e)
  read_plugin mode (answer status body) =
      if leb 300 status then failed (plugin_refused mode body) else decoded (unmarshal body)

  plugin_url : Env → ℤ → Text → Text
  plugin_url env p path = base_url env ++ codes ":" ++ decimal p ++ path

  unfoldable pub execute : Env → (mode prompt : Text) → Fields → World → Executed × World
  unfolding read_plugin plugin_url
  execute env mode prompt mode_config w =
      let bridge = bus_route_url env in
      let direct : Executed × World = elim (port lower env mode) [
        | none ↦ (failed (unknown_mode mode), w)
        | some p ↦
            let (reply, w') =
              post (plugin_url env p (codes "/v1/execute")) (marshal (payload prompt mode_config))
                (some (execute_timeout env 120)) w in
            (read_plugin mode reply, w')
      ] in
      if is_empty bridge then direct else execute_via_bus bridge mode prompt mode_config w

  -- `none` is a nil error. The headers go before the first bytes.
  unfoldable pub stream_relay :
      (Client : Type 0) (write : Text → Client → Bool × Client)
      → Env
      → (mode prompt session_id : Text) → Fields
      → Client
      → World
      → Option ModeError × Client × World
  unfolding read_stream plugin_url
  stream_relay Client write env mode prompt session_id mode_config c w =
      elim (port lower env mode) [
        | none ↦ (some (unknown_mode mode), c, w)
        | some p ↦
            let (reply, w') =
              post_stream (plugin_url env p (codes "/v1/execute/stream"))
                (marshal (payload prompt mode_config)) session_id (some (execute_timeout env 600))
                w in
            let (failure, c') = read_stream Client write mode reply c in (failure, c', w')
      ]
