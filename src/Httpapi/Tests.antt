-- ===== src/Httpapi/Tests.antt =====
-- A server of one session, on a network where every post is answered with the same envelope.
use cofiswarm_dispatch.Prelude.{
  not, keep, map, Text, codes, text_eq, text_eq_iff, is_empty, if◌then◌else◌, Option, true, false,
  none, some, List, [], ◌∷◌, ◌++◌, All, ◌≡◌, ◌≢◌, ◌⊎◌, refl, arith,
}
use cofiswarm_dispatch.Prelude.Decimal.{ℤ, pos, atoi}
use cofiswarm_dispatch.Prelude.Float.{zero_float}
use cofiswarm_dispatch.Disk.{ok, missing, wrote, write_file}
use cofiswarm_dispatch.Json.{
  text, array, object, nil, cons, Fields, field, end, lookup, json_string,
}
use cofiswarm_dispatch.Backend
use cofiswarm_dispatch.Backend.Router.Choose.Sound.{IsSound}
use cofiswarm_dispatch.Backend.Router.Record.{record_decision}
use cofiswarm_dispatch.Http.{no_connection, answer, refused}
use cofiswarm_dispatch.Backend.Router.{Env, Decision, init, set_context, should_route}
use cofiswarm_dispatch.History
use cofiswarm_dispatch.Stream.{Sink}
use cofiswarm_dispatch.Session.{as_run, as_values, values_of, items_of}
use cofiswarm_dispatch.Session.Compaction.Latest.{HasOtherId}
use cofiswarm_dispatch.Session.Summarize.{is_dropped}
use cofiswarm_dispatch.Session.Store.{append_run, save}
use cofiswarm_dispatch.Session.Store.Append.{session_runs}
use cofiswarm_dispatch.Rag.{defaults}
use cofiswarm_dispatch.Registry.{no_cache}
use cofiswarm_dispatch.Prepare.Tests.{request}
use cofiswarm_dispatch.Httpapi.{Server, Deps, Moment, json, keep_run}
use cofiswarm_dispatch.Httpapi.Evict.{HasTaken, keep_run-history}
use cofiswarm_dispatch.Httpapi.Architect.{handle_architect}
use cofiswarm_dispatch.Httpapi.Architect
use cofiswarm_dispatch.Httpapi.Architect.Persist.{handle_architect-IsKept, handle_architect-ctx}
use cofiswarm_dispatch.Httpapi.Relay
use cofiswarm_dispatch.Httpapi.Routes.{decoded, ResolveBody, decision_body, handle_resolve}
use cofiswarm_dispatch.Httpapi.Routes.Resolved.{handle_resolve-IsSound}
use cofiswarm_dispatch.Httpapi.Reflection.{env_truthy, env_int, is_zero, Started, start_reflection}
use cofiswarm_dispatch.Httpapi.Reflection.Start.{port_key, reflector_name, start_reflection-Started}

-- Codecs that keep how many sessions or rows there are.
abbrev pub tally : Fields → Text
tally end = []
tally (field k v m) = b's' ∷ tally m

abbrev pub sessions_for : Text → Fields
sessions_for [] = end
sessions_for (c ∷ b) = field (codes "sess_1") (object end) (sessions_for b)

abbrev pub deps : Deps
deps = record {
  network = record {
    World = Unit;
    get = λ url timeout w. (no_connection (codes "refused"), w);
    post = λ url body timeout w. (answer 200 (codes "{}"), w);
    post_stream = λ url body session_id timeout w. (refused (codes "refused"), w);
  };
  ops = record { add = λ x y. x; mul = λ x y. y; div = λ x y. x; of_nat = λ n. zero_float };
  to_int = λ x. pos 0;
  show_float = λ x. codes "0";
  lower = λ s. s;
  quote = λ s. s;
  explain = λ cause. codes "down";
  formats = record {
    marshal = λ m. [];
    unmarshal = λ s. some (some (field (codes "final") (text (codes "Port 8081.")) end));
    active = λ s. none;
  };
  decode_request = λ raw initial. some request;
  query_body = λ query k kinds. query;
  memory_body = λ kind lesson memory_id. lesson;
  chunks = λ s. none;
  marshal_agent = λ a. [];
  decode_roster = λ s. none;
  decision = λ s. none;
  session_codec = record { encode = λ doc. some (tally doc); decode = λ b. some (sessions_for b) };
  history_codec = record {
    encode = λ rows. some (map (λ r. b'r') rows);
    decode = λ b. some (map (λ c. field (codes "prompt") (text (codes "Hi")) end) b);
  };
}

abbrev pub moment : Moment
moment = record {
  new_id = λ prefix. prefix;
  roster_now = 0;
  roster_done = 1;
  wall_ms = zero_float;
  timestamp = pos 0;
  appended_at = zero_float;
  session_write = wrote;
  history_write = λ n. wrote;
}

abbrev first_run : Fields
first_run = field (codes "run_id") (text (codes "run_1")) end

abbrev second_run : Fields
second_run = field (codes "run_id") (text (codes "run_2")) end

abbrev pub log : History.Store
log = record { rows = []; file = missing }

abbrev pub server : Server
server = record {
  sessions = record {
    doc =
        field (codes "sess_1")
          (object (field (codes "runs") (array (cons (object first_run) nil)) end)) end;
    file = missing;
    has_hook = true;
  };
  history = some log;
  has_alerter = true;
  router = init;
  rag_cfg = defaults;
  roster_cache = no_cache;
}

abbrev pub env : Env
env = λ key. []

-- A connection that takes everything.
abbrev pub connection : Sink
connection = record {
  World = List Text;
  write = λ bytes sent. (true, sent ++ bytes ∷ []);
  marshal = λ v. [];
}

handle_architect-IsKept_example :
    let h = (handle_architect deps env moment true (codes "{}") server tt).0 in
    Architect.Persist.IsKept deps moment (codes "{}") server h
    ⊎ Architect.Persist.IsUntouched deps moment (codes "{}") server h
handle_architect-IsKept_example =
    handle_architect-IsKept deps env moment true (codes "{}") server tt

abbrev pub no_key : Fields → Text
no_key m = []

text_ne : (s t : Text) → text_eq s t ≡ false → s ≢ t
text_ne s t h = ground (arith, text_eq_iff s t)

second_fresh :
    All
      (HasOtherId (json_string second_run (codes "run_id")))
      (session_runs (codes "sess_1") server.sessions)
unfolding lookup text_eq as_values values_of items_of json_string
second_fresh = (text_ne (codes "run_1") (codes "run_2") refl, tt)

second_saved :
    (append_run deps.session_codec deps.ops wrote zero_float
      (codes "sess_1")
      second_run
      server.sessions).1
    ≡ ok
unfolding append_run save write_file
second_saved = refl

keep_run-history_example :
    let runs = session_runs (codes "sess_1") server.sessions in
    let s' = keep_run deps moment (codes "sess_1") second_run server in
    (ids : List Text) × (sess : Fields) × (lookup (codes "sess_1") s'.sessions.doc
      ≡ some (object sess))
    × (lookup (codes "runs") sess
        ≡ some
            (array (items_of (keep (λ r. not (is_dropped ids r)) runs ++ object second_run ∷ []))))
    × HasTaken (codes "sess_1") log.rows (map as_run (keep (is_dropped ids) runs)) s'.history
keep_run-history_example =
    keep_run-history deps moment (codes "sess_1") second_run server log refl refl second_saved
      second_fresh

abbrev pub coder : Backend.Agent
coder = record {
  name = codes "coder";
  engine = codes "llama";
  backend = [];
  model = codes "qwen.gguf";
  tags = [];
  inference_backend = codes "auto";
}

abbrev pub to_resolve : ResolveBody
to_resolve = record {
  agent = coder;
  context = record {
    mode_name = codes "pipeline";
    sequential_mode = true;
    kv_pressure = zero_float;
  };
}

handle_resolve-IsSound_example :
    let (response, r') = handle_resolve true true (decoded to_resolve) init in
    (d : Decision) × IsSound coder d
    × (response ≡ json 200 (decision_body (codes "coder") d))
    × (r'.ctx ≡ none)
    × (r'.last_decisions ≡ [])
    × (r'.decision_log ≡ (
        if should_route (set_context to_resolve.context init)
        then (record_decision (codes "coder") d init).decision_log
        else init.decision_log))
handle_resolve-IsSound_example = handle_resolve-IsSound true to_resolve init refl

-- Every variable is set.
abbrev pub all_set : Env
all_set key = codes "1"

no_duration : Text → Option ℤ
no_duration s = none

is_enabled : env_truthy all_set (codes "COFISWARM_REFLECT_ENABLED") ≡ true
unfolding env_truthy text_eq
is_enabled = refl

has_url : is_empty server.rag_cfg.retrieve_url ≡ false
unfolding defaults
has_url = refl

has_port : is_zero (env_int all_set port_key (pos 0)) ≡ false
unfolding env_int atoi
has_port = refl

start_reflection-Started_example :
    (started : Started) × ((start_reflection deps no_duration all_set server tt).0 ≡ some started)
    × (started.reflector.port ≡ env_int all_set port_key (pos 0))
    × (started.reflector.name ≡ reflector_name all_set)
start_reflection-Started_example =
    start_reflection-Started deps no_duration all_set server tt log is_enabled refl has_url has_port
