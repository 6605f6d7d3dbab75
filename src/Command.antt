-- ===== src/Command.antt =====
-- cmd/cofiswarm-dispatch/main.go: the start of the process over the files of its state root, and its end. The flags
-- are given by their values; listening, the goroutines and the signals are not modelled.
pub mod Restart
pub mod Tests
use cofiswarm_dispatch.Prelude.{
  Text, codes, is_empty, Bool, true, false, not, Option, none, some, List, [], ◌∷◌, ◌++◌, map,
  if◌then◌else◌,
}
use cofiswarm_dispatch.Prelude.Decimal.{ℤ}
use cofiswarm_dispatch.Disk.{File, Outcome, ok, err}
use cofiswarm_dispatch.Backend.Router.{Env}
use cofiswarm_dispatch.History
use cofiswarm_dispatch.Session.Store
use cofiswarm_dispatch.Httpapi.{Server, Deps, World, new_server}
use cofiswarm_dispatch.Httpapi.Reflection.{Started, start_reflection}

-- The messages to the bus.
pub data Message : Type 0 where
  announce goodbye : Message
  alert : Text → Message

-- `join` is `filepath.Join`.
unfoldable pub state_root : Env → (join : List Text → Text) → (state : Text) → Text
state_root env join state =
    let var_lib = env (codes "COFISWARM_VAR_LIB") in
    if not (is_empty state)
    then state
    else if not (is_empty var_lib)
    then join (var_lib ∷ codes "cofiswarm" ∷ codes "dispatch" ∷ [])
    else codes "/var/lib/cofiswarm/dispatch"

pub record Paths : Type 0 where
  pub sessions : Text
  pub history : Text
  pub cursor : Text

unfoldable pub paths_under : (join : List Text → Text) → (root : Text) → Paths
paths_under join root = record {
  sessions = join (root ∷ codes "sessions" ∷ codes "sessions.json" ∷ []);
  history = join (root ∷ codes "history" ∷ codes "history.json" ∷ []);
  cursor = join (root ∷ codes "reflect" ∷ codes "cursor" ∷ []);
}

-- Whether there is a publisher, and with it an alerter.
unfoldable pub on_bus : Env → Bool
on_bus env = not (is_empty (env (codes "COFISWARM_BRIDGE_URL")))

-- The process once everything runs; `reflection` are the options of the scheduler, if one was started.
pub record Process : Type 0 where
  pub server : Server
  pub has_publisher : Bool
  pub paths : Paths
  pub published : List Message
  pub reflection : Option Started

-- `log.Fatal` ends a start.
pub data Launch : Type 0 where
  fatal : Launch
  running : Process → Launch

stop_messages : (has_publisher : Bool) → List Message
stop_messages true = goodbye ∷ []
stop_messages false = []

-- The alerts of a handler go to the bus.
unfoldable pub publish_alerts : List Text → Process → Process
publish_alerts alerts p = record p { published = p.published ++ map alert alerts }

-- After the signal.
unfoldable pub shut_down : Process → Process
unfolding stop_messages
shut_down p = record p { published = p.published ++ stop_messages p.has_publisher }

-- With presence announced, if there is a publisher.
unfoldable pub process_of : Env → Paths → Server → Option Started → Process
process_of env paths server reflection = record {
  server = server;
  has_publisher = on_bus env;
  paths = paths;
  published = if on_bus env then announce ∷ [] else [];
  reflection = reflection;
}

module _ (deps : Deps) (join : List Text → Text) (parse_duration : Text → Option ℤ) where
  started_with : Env → Paths → Store.Store → History.Store → World deps → Launch × World deps
  started_with env paths sessions history w =
      let server = new_server env sessions (some history) (on_bus env) in
      let (reflection, w') = start_reflection deps parse_duration env server w in
      (running (process_of env paths server reflection), w')

  with_history :
      Env → Paths → Store.Store → History.Store × Outcome → World deps → Launch × World deps
  unfolding started_with
  with_history env paths sessions (history, ok) w = started_with env paths sessions history w
  with_history env paths sessions (history, err) w = (fatal, w)

  with_sessions :
      Env → Paths → (Text → File) → Store.Store × Outcome → World deps → Launch × World deps
  unfolding with_history
  with_sessions env paths files (sessions, ok) w =
      with_history env paths sessions (History.open_store deps.history_codec (files paths.history))
        w
  with_sessions env paths files (sessions, err) w = (fatal, w)

  -- `main` up to the wait for a signal, with the flag `-state` and the files that are on the disk.
  unfoldable pub launch : Env → (state : Text) → (Text → File) → World deps → Launch × World deps
  unfolding with_sessions
  launch env state files w =
      let paths = paths_under join (state_root env join state) in
      with_sessions env paths files (Store.open_store deps.session_codec (files paths.sessions)) w
