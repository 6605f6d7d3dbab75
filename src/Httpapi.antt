-- ===== src/Httpapi.antt =====
-- internal/httpapi/server.go: the server's state, the hand-off of evicted runs and the steps that the two
-- dispatch handlers share. What is not in the repository is a parameter: one record of the network, the
-- codecs and the printing of numbers and errors.
mod Answers
pub mod Evict
pub mod Architect
pub mod Relay
pub mod Routes
pub mod Agents
pub mod Overlap
pub mod Reflection
pub mod Mux
pub mod Outside
pub mod Serve
pub mod Run
pub mod Tests
use cofiswarm_dispatch.Prelude.{
  ℕ, zero, suc, ◌+◌, Text, codes, text_eq, is_empty, Bool, true, false, not, ◌&&◌, ◌||◌, Option,
  none, some, List, [], ◌∷◌, ◌++◌, if◌then◌else◌,
}
use cofiswarm_dispatch.Prelude.Decimal.{ℤ, pos, itoa}
use cofiswarm_dispatch.Prelude.Float.{Float64, FloatOps}
use cofiswarm_dispatch.Disk.{Write, Outcome}
use cofiswarm_dispatch.Json.{Value, text, object, Fields, end, field, insert}
use cofiswarm_dispatch.Http.{Reply, Network}
use cofiswarm_dispatch.Agent.{Agent}
use cofiswarm_dispatch.Backend.Router.{
  Env, Router, Context, init, configure_from_startup, is_enabled, set_context, clear_context,
}
use cofiswarm_dispatch.Backend.Router.Record.{Snapshot, snapshot_decisions}
use cofiswarm_dispatch.History
use cofiswarm_dispatch.Session.Store.{Handed, set_evict_hook, append_run}
use cofiswarm_dispatch.Session.Store
use cofiswarm_dispatch.Session.Context.Prompt.{build_continuation}
use cofiswarm_dispatch.Rag.{Settings, Hit, Service, settings_from_env}
use cofiswarm_dispatch.Registry.{Registry, Slice, Cache, no_cache}
use cofiswarm_dispatch.Prepare.{Request, RagResult, bool_value}
use cofiswarm_dispatch.Prepare.Build.{client, build_rag}
use cofiswarm_dispatch.Modes.{ModeError, Formats, normalize, active_mode}
use cofiswarm_dispatch.Kvpool.{admit, estimate_tokens}
use cofiswarm_dispatch.Kvpool
unfoldable pub use Answers.*

pub record Server : Type 0 where
  pub sessions : Store.Store
  pub history : Option History.Store
  pub has_alerter : Bool
  pub router : Router
  pub rag_cfg : Settings
  -- The cache of the registry's package.
  pub roster_cache : Cache

-- The parts of the world and of the standard library that the handlers rest on. `quote` is `%q`, `explain`
-- the text of a mode's error.
pub record Deps : Type 1 where
  pub network : Network
  pub ops : FloatOps
  pub to_int : Float64 → ℤ
  pub show_float : Float64 → Text
  pub lower : Text → Text
  pub quote : Text → Text
  pub explain : ModeError → Text
  pub formats : Formats
  pub decode_request : Text → Request → Option Request
  pub query_body : (query : Text) → ℤ → List Text → Text
  pub memory_body : (kind lesson : Text) → Option Text → Text
  pub chunks : Text → Option (List Hit)
  pub marshal_agent : Agent → Text
  pub decode_roster : Text → Option Slice
  pub decision : Text → Option (Bool × Text)
  pub session_codec : Store.Codec
  pub history_codec : History.Codec

-- What one request finds: the new ids, the times and how each write of a file ends.
pub record Moment : Type 0 where
  pub new_id : (prefix : Text) → Text
  pub roster_now : ℕ
  pub roster_done : ℕ
  pub wall_ms : Float64
  pub timestamp : ℤ
  pub appended_at : Float64
  pub session_write : Write
  pub history_write : ℕ → Write

-- The rag service and the registry over the network; their timeouts are 12 and 2 seconds.
abbrev pub rag_service : Deps → Service
rag_service deps = record {
  World = deps.network.World;
  post = λ url body w. deps.network.post url body (some (pos 12)) w;
  fetch = λ url w. deps.network.get url (some (pos 12)) w;
  query_body = deps.query_body;
  memory_body = deps.memory_body;
  chunks = deps.chunks;
}

abbrev pub registry_service : Deps → Registry
registry_service deps = record {
  World = deps.network.World;
  get = λ url w. deps.network.get url (some (pos 2)) w;
  post = λ url body w. deps.network.post url body (some (pos 2)) w;
  marshal = deps.marshal_agent;
  decode = deps.decode_roster;
}

abbrev has_history : Option History.Store → Bool
has_history none = false
has_history (some h) = true

-- `New`: the hook is set where there is a history.
unfoldable pub new_server : Env → Store.Store → Option History.Store → (has_alerter : Bool) → Server
new_server env sessions history has_alerter = record {
  sessions = if has_history history then set_evict_hook true sessions else sessions;
  history = history;
  has_alerter = has_alerter;
  router = configure_from_startup env end init;
  rag_cfg = settings_from_env env;
  roster_cache = no_cache;
}

unfoldable pub copy_into : Fields → Fields → Fields
copy_into end entry = entry
copy_into (field k v run) entry = copy_into run (insert k v entry)

-- The run's own keys win.
unfoldable pub evict_entry : Text → Fields → Fields
unfolding copy_into
evict_entry session_id run = copy_into run (
    field (codes "session_id") (text session_id)
      (field (codes "source") (text (codes "working_memory_evict")) end))

-- `entry ∷ entries` one after another; an error is only logged.
unfoldable pub append_evicted :
    History.Codec → (ℕ → Write) → ℕ → Text → List Fields → History.Store → History.Store
append_evicted codec disk n session_id [] h = h
append_evicted codec disk n session_id (run ∷ runs) h =
    append_evicted codec disk (n + 1) session_id runs
      (History.append codec (disk n) (evict_entry session_id run) h).0

-- The hook that `New` sets.
unfoldable pub evict_hook :
    History.Codec → (ℕ → Write) → Handed → Option History.Store → Option History.Store
unfolding append_evicted evict_entry
evict_hook codec disk none h = h
evict_hook codec disk (some handed) none = none
evict_hook codec disk (some (session_id, evicted)) (some h) =
    some (append_evicted codec disk 0 session_id evicted h)

unfoldable pub snapshot_fields : List (Text × Snapshot) → Fields
snapshot_fields [] = end
snapshot_fields ((agent, s) ∷ more) =
    field agent
      (object (
        field (codes "backend") (text s.backend) (
          field (codes "reason") (text s.reason)
            (field (codes "fallback") (bool_value s.fallback) end))))
      (snapshot_fields more)

is_sequential : Text → Bool
is_sequential mode =
    text_eq mode (codes "pipeline")
    || text_eq mode (codes "cascade")
    || text_eq mode (codes "router")

-- `withRoutingContext` before the call, and the decisions after it with the cleared router.
unfoldable pub enter_context : Text → Float64 → Router → Router
unfolding is_sequential
enter_context mode kv_pressure r =
    set_context
      (record { mode_name = mode; sequential_mode = is_sequential mode; kv_pressure = kv_pressure })
      r

unfoldable pub leave_context : Router → Fields × Router
unfolding snapshot_fields
leave_context r =
    (if is_enabled r then snapshot_fields (snapshot_decisions r) else end, clear_context r)

module _ (deps : Deps) where
  abbrev pub World : Type 0
  World = deps.network.World

  unfoldable pub resolve_mode : Env → Text → World → Text × World
  resolve_mode env mode w =
      if is_empty mode
      then active_mode deps.network deps.formats deps.lower env w
      else (normalize deps.lower mode, w)

  -- The prompt and the note on its compaction; `none` is a panic.
  follow_up : Server → Request → Option (Text × Option Fields)
  follow_up s req =
      if req.followup
      then elim (build_continuation deps.to_int s.sessions.doc req.session_id req.prompt
          req.context_policy) [ none ↦ none | some c ↦ some (c.prompt, some c.compaction) ]
      else some (req.prompt, none)

  unfoldable pub effective_prompt :
      Server → Request → World → Option (Option Fields × RagResult × World)
  unfolding follow_up
  effective_prompt s req w = elim (follow_up s req) [
    | none ↦ none
    | some (eff, compaction) ↦
        let (res, w') = build_rag (client (rag_service deps)) deps.show_float req eff s.rag_cfg w in
        some (compaction, res, w')
  ]

  -- The answer of the gate, and the alert of a denial.
  unfoldable pub gate_kv :
      Env → Server → (mode prompt : Text) → World → (Bool × Text) × List Text × World
  gate_kv env s mode prompt w =
      let base = Kvpool.url env in
      let tokens = estimate_tokens prompt in
      let ((allowed, reason), w') =
        admit deps.formats.marshal deps.decision deps.network base (normalize deps.lower mode)
          tokens w in
      let alert =
        codes "KV budget gate: mode "
        ++ deps.quote mode
        ++ codes " denied ("
        ++ reason
        ++ codes ", ~"
        ++ itoa tokens
        ++ codes " tok)" in
      if is_empty base
      then ((true, []), [], w)
      else ((allowed, reason), if not allowed && s.has_alerter then alert ∷ [] else [], w')

  -- `AppendRun` with its hook; the caller does not look at the error.
  unfoldable pub keep_run : Moment → Text → Fields → Server → Server
  unfolding evict_hook
  keep_run moment session_id run s =
      let (sessions, outcome, handed) =
        append_run deps.session_codec deps.ops moment.session_write moment.appended_at session_id
          run s.sessions in
      record s {
        sessions = sessions;
        history = evict_hook deps.history_codec moment.history_write handed s.history;
      }

unfoldable pub mode_unavailable : Deps → (mode : Text) → ModeError → Response
mode_unavailable deps mode cause = json 503 (
    object (
      field (codes "error")
        (text (codes "mode " ++ deps.quote mode ++ codes " unavailable: " ++ deps.explain cause))
        (field (codes "mode") (text mode) end)))

-- The alert where there is an alerter.
unfoldable pub alert_of : Server → Text → List Text
alert_of s message = if s.has_alerter then message ∷ [] else []
