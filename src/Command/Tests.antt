-- ===== src/Command/Tests.antt =====
-- A process that is started twice.
use cofiswarm_dispatch.Prelude.{
  Text, false, codes, text_eq, if◌then◌else◌, none, some, List, [], ◌∷◌, ◌++◌, ◌≡◌, refl, All,
  Option,
}
use cofiswarm_dispatch.Prelude.Decimal.{ℤ}
use cofiswarm_dispatch.Disk.{File, missing, wrote}
use cofiswarm_dispatch.History
use cofiswarm_dispatch.Session.Store
use cofiswarm_dispatch.Httpapi.{Server, new_server}
use cofiswarm_dispatch.Httpapi.Reflection.{start_reflection}
use cofiswarm_dispatch.Json.{end}
use cofiswarm_dispatch.Httpapi.Run.{run}
use cofiswarm_dispatch.Httpapi.Run.Tests.{outside, events}
use cofiswarm_dispatch.Httpapi.Tests.{tally, sessions_for, deps, env}
use cofiswarm_dispatch.Httpapi.Run.Good.{Allows}
use cofiswarm_dispatch.Command.{
  Paths, Process, paths_under, state_root, on_bus, process_of, running, launch,
}
use cofiswarm_dispatch.Command.Restart.{history_file, IsReread, restart}

abbrev join : List Text → Text
join [] = []
join (part ∷ parts) = part ++ codes "/" ++ join parts

abbrev no_duration : Text → Option ℤ
no_duration s = none

abbrev state : Text
state = codes "/state"

abbrev nothing : Text → File
nothing path = missing

abbrev paths : Paths
paths = paths_under join (state_root env join state)

abbrev empty_sessions : Store.Store
empty_sessions = record { doc = end; file = missing; has_hook = false }

abbrev empty_log : History.Store
empty_log = record { rows = []; file = missing }

abbrev fresh : Server
fresh = new_server env empty_sessions (some empty_log) (on_bus env)

abbrev first : Process
first = process_of env paths fresh (start_reflection deps no_duration env fresh tt).0

-- The first start finds no files.
first_start : (launch deps join no_duration env state nothing tt).0 ≡ running first
unfolding launch Store.open_store History.open_store
first_start = refl

abbrev at_end : Server
at_end = run outside env events first.server

abbrev left : Text → File
left path =
    if text_eq path paths.sessions then at_end.sessions.file else history_file at_end.history

all_written : All (Allows {o = outside} (λ w. w ≡ wrote)) events
all_written = ((refl, λ n. refl), ((refl, λ n. refl), (refl, tt)))

sessions_left : left first.paths.sessions ≡ at_end.sessions.file
unfolding text_eq paths_under state_root process_of
sessions_left = refl

log_left : left first.paths.history ≡ history_file at_end.history
unfolding text_eq paths_under state_root process_of
log_left = refl

sessions_reread : Store.Reread.Rereads deps.session_codec
sessions_reread doc b e = (sessions_for b, refl)

log_reread : History.Reread.Rereads deps.history_codec
log_reread rows b e = (_, refl)

abbrev sessions_json : Text
sessions_json = tally at_end.sessions.doc

log_encodes :
    (h : History.Store)
    → at_end.history ≡ some h
    → (b : Text) × (deps.history_codec.encode h.rows ≡ some b)
log_encodes h there = (_, refl)

restart_example :
    (p' : Process) × (h : History.Store) × (h' : History.Store) × (b' : Text) × ((launch deps join
        no_duration env state left tt).0
      ≡ running p')
    × IsReread deps.session_codec.decode sessions_json at_end.sessions.doc p'.server.sessions.doc
    × (at_end.history ≡ some h)
    × (p'.server.history ≡ some h')
    × (deps.history_codec.encode h.rows ≡ some b')
    × IsReread deps.history_codec.decode b' h.rows h'.rows
restart_example =
    restart outside sessions_reread log_reread join no_duration env state nothing left tt tt first
      events sessions_json first_start all_written sessions_left log_left refl log_encodes
