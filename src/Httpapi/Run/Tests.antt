-- ===== src/Httpapi/Run/Tests.antt =====
-- A server whose agents and mode services cannot be reached.
use cofiswarm_dispatch.Prelude.{
  Text, codes, text_eq, true, false, none, some, List, [], ◌∷◌, ◌++◌, ◌≡◌, refl, arith,
  if◌then◌else◌, contains,
}
use cofiswarm_dispatch.Prelude.Decimal.{pos}
use cofiswarm_dispatch.Prelude.Float.{zero_float}
use cofiswarm_dispatch.Disk.{missing, wrote}
use cofiswarm_dispatch.Json.{Fields, lookup, array, nil, end}
use cofiswarm_dispatch.Agent.Client
use cofiswarm_dispatch.Agent.{HasSmallCap}
use cofiswarm_dispatch.Agent.Client.{Net, no_connection}
use cofiswarm_dispatch.Agent.Stream
use cofiswarm_dispatch.Agent.Stream.{StreamNet}
use cofiswarm_dispatch.Backend.Router.Choose.{resolve}
use cofiswarm_dispatch.Backend.Router.{
  Router, init, set_context, configure_from_startup, should_route,
}
use cofiswarm_dispatch.Backend.Router.Quiet.{IsQuiet}
use cofiswarm_dispatch.Compat.{unread}
use cofiswarm_dispatch.History
use cofiswarm_dispatch.Rag.{defaults}
use cofiswarm_dispatch.Reflect.{Error}
use cofiswarm_dispatch.Reflect.Pass.{tick, load_cursor}
use cofiswarm_dispatch.Reflect.Tests.{reflector, row, run as episode, log as one_row, one_new}
use cofiswarm_dispatch.Httpapi.Mux.{mux, route_in}
use cofiswarm_dispatch.Httpapi.{new_server, enter_context, leave_context}
use cofiswarm_dispatch.Httpapi.Agents.{CallBody}
use cofiswarm_dispatch.Httpapi.Routes.{handle_resolve, malformed, decoded}
use cofiswarm_dispatch.Httpapi.Outside.{HttpRequest, Outside}
use cofiswarm_dispatch.Httpapi.Overlap.{call_all, overlap_lost}
use cofiswarm_dispatch.Httpapi.Reflection.{Started}
use cofiswarm_dispatch.Httpapi.Reflection.Adapters.{reflect_services}
use cofiswarm_dispatch.Httpapi.Reflection.Adapters.Refused.{tick_refused}
use cofiswarm_dispatch.Httpapi.Serve.{serve_at, Worlds, serve, serve_route}
use cofiswarm_dispatch.Httpapi.Serve.Refused.{refusal, IsRefused, serve-IsRefused}
use cofiswarm_dispatch.Httpapi.Run.{Event, request, ticked, run}
use cofiswarm_dispatch.Httpapi.Run.Log.{run-history}
use cofiswarm_dispatch.Httpapi.Run.Quiet.{NoPanic, run-IsQuiet}
use cofiswarm_dispatch.Httpapi.Tests.{
  deps, moment, log, server, env, connection, no_key, to_resolve,
}

abbrev no_agents : Net
no_agents = record {
  World = Unit;
  post = λ req w. (no_connection (codes "connection refused"), w);
  choices = λ body. none;
  error_message = λ body. [];
}

abbrev no_streams : StreamNet
no_streams = record {
  World = Unit;
  open_stream = λ req w. (Stream.refused, w);
  delta = λ frame. none;
}

abbrev client : Client.Client
client = record { host = codes "127.0.0.1"; bus_url = [] }

abbrev to_call : CallBody
to_call = record { agent = reflector; prompt = codes "Hello"; system_prompt = []; session_id = [] }

abbrev pub outside : Outside
outside = record {
  deps = deps;
  net = no_agents;
  stream_net = no_streams;
  sink = connection;
  client = client;
  redirect = λ method path. if contains path (codes "//") then some (codes "/") else none;
  goos = codes "darwin";
  goarch = codes "arm64";
  first_key = no_key;
  entry = λ body. decoded row;
  entry_error = codes "disk full";
  to_resolve = λ body. decoded to_resolve;
  call = λ body. decoded to_call;
  rag_query = λ body. decoded body;
  continuation = λ body. malformed (codes "EOF");
  join = λ parts. [];
  read_file = λ path. unread (codes "no such file");
  groups = λ body. none;
  endpoints = λ body. array nil;
  unmarshal = λ body. none;
}

abbrev pub worlds : Worlds outside
worlds = record { services = tt; agents = tt; streams = tt; connection = [] }

abbrev pub to_path : Text → Text → HttpRequest
to_path method path = record {
  path = path;
  method = method;
  query = λ key. [];
  body = codes "{}";
  can_flush = true;
  cancelled = false;
}

abbrev started : Started
started = record {
  reflector = reflector;
  interval = pos 900000000000;
  max_episodes = pos 50;
  max_chars = pos 0;
}

abbrev pub events : List (Event outside)
events =
    request moment (to_path (codes "POST") (codes "/api/architect")) worlds
    ∷ request moment (to_path (codes "POST") (codes "/api/history/entry")) worlds
    ∷ ticked started wrote wrote missing tt tt
    ∷ []

run-history_example :
    (h' : History.Store) × (more : List Fields) × ((run outside env events server).history
      ≡ some h')
    × (h'.rows ≡ log.rows ++ more)
run-history_example = run-history outside env events server log refl

abbrev resolves : List (Event outside)
resolves =
    request moment (to_path (codes "POST") (codes "/api/backend/resolve")) worlds
    ∷ ticked started wrote wrote missing tt tt
    ∷ []

no_panic : NoPanic outside env resolves (new_server env server.sessions (some log) true)
unfolding serve serve_route route_in mux text_eq handle_resolve resolve should_route set_context
    serve_at contains new_server configure_from_startup lookup
no_panic = (refl, (refl, tt))

run-IsQuiet_example :
    IsQuiet (run outside env resolves (new_server env server.sessions (some log) true)).router
run-IsQuiet_example = run-IsQuiet outside env server.sessions (some log) true resolves no_panic

abbrev get_architect : HttpRequest
get_architect = to_path (codes "GET") (codes "/api/architect")

not_allowed : refusal get_architect ≡ some 405
unfolding route_in mux text_eq
not_allowed = refl

not_moved : outside.redirect get_architect.method get_architect.path ≡ none
unfolding contains
not_moved = refl

serve-IsRefused_example :
    IsRefused outside env moment get_architect server worlds 405
      (serve outside env moment get_architect server worlds)
serve-IsRefused_example =
    serve-IsRefused outside env moment get_architect server worlds 405 not_moved not_allowed

overlap_lost_example :
    let call_each = call_all no_agents deps.ops true client in
    let first =
      call_each ((decoded to_call, tt) ∷ []) (enter_context (codes "pipeline") zero_float init) in
    let second = call_each [] (enter_context (codes "flat") zero_float first) in
    let rest = call_each ((decoded to_call, tt) ∷ []) (leave_context second).1 in
    (should_route (leave_context second).1 ≡ false)
    × (should_route rest ≡ false)
    × ((leave_context rest).0 ≡ end)
overlap_lost_example =
    overlap_lost no_agents deps.ops true client (codes "pipeline") (codes "flat") zero_float
      zero_float ((decoded to_call, tt) ∷ []) [] ((decoded to_call, tt) ∷ []) init

reflector_cap : HasSmallCap reflector
reflector_cap n e = ground arith

tick_refused_example :
    let (p, file') =
      tick
        (reflect_services deps no_agents true client defaults reflector (λ body. none))
        deps.history_codec
        wrote
        wrote
        one_row
        missing
        (pos 0)
        (pos 0)
        (some (init, tt, tt)) in
    (err : Error) × (p.error ≡ some err)
    × (p.result.stored ≡ 0)
    × (p.store ≡ one_row)
    × (r' : Router) × (world' : Unit {0}) × (p.world ≡ some (r', world', tt))
    × (load_cursor file' ≡ 1)
tick_refused_example =
    tick_refused deps no_agents true client defaults reflector (λ body. none)
      (codes "connection refused") (λ req w. refl) deps.history_codec wrote one_row missing (pos 0)
      (pos 0) init tt tt episode [] reflector_cap (omega arith) (omega arith) (omega arith)
      (unfold load_cursor in one_new)
