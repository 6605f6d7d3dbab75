-- ===== src/Command/Restart.antt =====
-- A process that is started on the files that another one left.
use cofiswarm_dispatch.Prelude.{
  ℕ, ◌+◌, Text, Option, none, some, List, [], ◌∷◌, All, ◌≡◌, ◌⊎◌, refl, sym, ap, subst, ◌∙◌,
}
use cofiswarm_dispatch.Prelude.Decimal.{ℤ}
use cofiswarm_dispatch.Disk.{File, missing, Write, wrote, Outcome, ok, err}
use cofiswarm_dispatch.Json.{Fields}
use cofiswarm_dispatch.Backend.Router.{Env}
use cofiswarm_dispatch.History
use cofiswarm_dispatch.Session.Store
use cofiswarm_dispatch.Session.Store.{Handed}
use cofiswarm_dispatch.Httpapi.{
  Server, Deps, World, new_server, evict_entry, evict_hook, append_evicted,
}
use cofiswarm_dispatch.Httpapi.Reflection.{start_reflection}
use cofiswarm_dispatch.Httpapi.Outside.{Outside}
use cofiswarm_dispatch.Httpapi.Run.{Event, run}
use cofiswarm_dispatch.Httpapi.Run.Good.{Allows, run_Good}
use cofiswarm_dispatch.Command.{
  Paths, paths_under, state_root, Process, running, on_bus, process_of, with_sessions, with_history,
  launch,
}

-- The history's store is saved.
abbrev HasSavedHistory : History.Codec → Option History.Store → Type 0
HasSavedHistory codec history =
    (h : History.Store) × (history ≡ some h) × History.Reread.IsSaved codec h

append_evicted-IsSaved :
    (codec : History.Codec) (disk : ℕ → Write) (n : ℕ) (session_id : Text) (runs : List Fields)
    (h : History.Store)
    → History.Reread.Rereads codec
    → ((n : ℕ) → disk n ≡ wrote)
    → History.Reread.IsSaved codec h
    → History.Reread.IsSaved codec (append_evicted codec disk n session_id runs h)
unfolding append_evicted
append_evicted-IsSaved codec disk n session_id [] h rereads good saved = saved
append_evicted-IsSaved codec disk n session_id (r ∷ runs) h rereads good saved =
    let entry = evict_entry session_id r in
    append_evicted-IsSaved codec disk (n + 1) session_id runs
      (History.append codec (disk n) entry h).0 rereads good
      (rw (good n) (History.Reread.append-IsSaved codec entry h rereads))

hook-saved :
    (codec : History.Codec) (disk : ℕ → Write) (handed : Handed) (history : Option History.Store)
    → History.Reread.Rereads codec
    → ((n : ℕ) → disk n ≡ wrote)
    → HasSavedHistory codec history
    → HasSavedHistory codec (evict_hook codec disk handed history)
unfolding evict_hook
hook-saved codec disk none history rereads good saved = saved
hook-saved codec disk (some (session_id, evicted)) history rereads good (h, there, saved) =
    rw (there, evict_hook)
      (_, refl, append_evicted-IsSaved codec disk 0 session_id evicted h rereads good saved)

-- What the second process starts with is what the first one held, or what its JSON is unmarshalled to.
abbrev pub IsReread : {A : Type 0} → (decode : Text → Option A) → Text → (held found : A) → Type 0
IsReread decode b held found = (found ≡ held) ⊎ (decode b ≡ some found)

-- What is in the file of the history, if there is one.
abbrev pub history_file : Option History.Store → File
history_file none = missing
history_file (some h) = h.file

module _ (deps : Deps) (join : List Text → Text) (parse_duration : Text → Option ℤ) (env : Env)
    (state : Text) where
  abbrev paths : Paths
  paths = paths_under join (state_root env join state)

  -- The stores behind a process that runs.
  record HasOpened (files : Text → File) (p : Process) : Type 0 where
    sessions : Store.Store
    history : History.Store
    sessions_so : Store.open_store deps.session_codec (files paths.sessions) ≡ (sessions, ok)
    history_so : History.open_store deps.history_codec (files paths.history) ≡ (history, ok)
    server_so : p.server ≡ new_server env sessions (some history) (on_bus env)
    paths_so : p.paths ≡ paths

  module _ (files : Text → File) (w : World deps) (p : Process) where
    history_opened :
        (sessions : Store.Store) (opened : History.Store × Outcome)
        → Store.open_store deps.session_codec (files paths.sessions) ≡ (sessions, ok)
        → History.open_store deps.history_codec (files paths.history) ≡ opened
        → (with_history deps join parse_duration env paths sessions opened w).0 ≡ running p
        → HasOpened files p
    unfolding with_history process_of
    history_opened sessions (history, err) sessions_so history_so launched = cc
    history_opened sessions (history, ok) sessions_so history_so launched = record {
      sessions = sessions;
      history = history;
      sessions_so = sessions_so;
      history_so = history_so;
      server_so = cc;
      paths_so = cc;
    }

    sessions_opened :
        (opened : Store.Store × Outcome)
        → Store.open_store deps.session_codec (files paths.sessions) ≡ opened
        → (with_sessions deps join parse_duration env paths files opened w).0 ≡ running p
        → HasOpened files p
    unfolding with_sessions
    sessions_opened (sessions, err) sessions_so launched = cc
    sessions_opened (sessions, ok) sessions_so launched =
        history_opened sessions _ sessions_so refl launched

    launch-HasOpened :
        (launch deps join parse_duration env state files w).0 ≡ running p → HasOpened files p
    unfolding launch
    launch-HasOpened launched = sessions_opened _ refl launched

  launch-running :
      (files : Text → File) (w : World deps) (sessions : Store.Store) (history : History.Store)
      → Store.open_store deps.session_codec (files paths.sessions) ≡ (sessions, ok)
      → History.open_store deps.history_codec (files paths.history) ≡ (history, ok)
      → (p : Process) × ((launch deps join parse_duration env state files w).0 ≡ running p)
        × (p.server ≡ new_server env sessions (some history) (on_bus env))
  unfolding launch process_of
  launch-running files w sessions history sessions_so history_so =
      let server = new_server env sessions (some history) (on_bus env) in
      (
        process_of env paths server (start_reflection deps parse_duration env server w).0,
        rw (sessions_so, history_so),
        refl,
      )

module _ (o : Outside) (rereads : Store.Reread.Rereads o.deps.session_codec)
    (rereads_log : History.Reread.Rereads o.deps.history_codec) where
  -- Opening the files of the server gives its sessions and its history, or what their JSON is unmarshalled to.
  abbrev pub IsSaved : Store.Store → Option History.Store → Type 0
  IsSaved sessions history =
      Store.Reread.IsSaved o.deps.session_codec sessions
      × HasSavedHistory o.deps.history_codec history

  run-IsSaved :
      (env : Env) (es : List (Event o)) (s : Server)
      → All (Allows (λ w. w ≡ wrote)) es
      → IsSaved s.sessions s.history
      → IsSaved (run o env es s).sessions (run o env es s).history
  run-IsSaved env es s good saved =
      run_Good o env (λ w. w ≡ wrote) IsSaved
        (λ moment session_id fields sessions history a b g. (
          rw a (
              Store.Reread.append_run-IsSaved o.deps.session_codec o.deps.ops moment.appended_at
                session_id fields sessions rereads),
          hook-saved o.deps.history_codec moment.history_write _ history rereads_log b g.1,
        ))
        (λ w entry sessions h a g. (
          g.0,
          (_, refl, rw a (History.Reread.append-IsSaved o.deps.history_codec entry h rereads_log)),
        ))
        es s good saved

  launched-IsSaved :
      (join : List Text → Text) (parse_duration : Text → Option ℤ) (env : Env) (state : Text)
      (files : Text → File) (p : Process)
      → HasOpened o.deps join parse_duration env state files p
      → IsSaved p.server.sessions p.server.history
  unfolding new_server Store.set_evict_hook
  launched-IsSaved join parse_duration env state files p opened =
      let fresh = new_server env opened.sessions (some opened.history) (on_bus env) in
      let saved : IsSaved fresh.sessions fresh.history = (
        (Store.Reread.open_store-IsSaved o.deps.session_codec _ opened.sessions
            opened.sessions_so).1,
        (
          opened.history,
          refl,
          History.Reread.open_store-IsSaved o.deps.history_codec _ opened.history opened.history_so,
        ),
      ) in
      subst (λ (s : Server). IsSaved s.sessions s.history) (sym opened.server_so) saved

  -- Where what was marshalled can be unmarshalled: for a process that was started, and that served any
  -- requests and ticks of the reflection, one after another, with every write of the two stores succeeding, on any
  -- networks, and whose sessions and history at its end can be marshalled: a process that is started on the
  -- files it left, with the same environment and flag, runs, and its sessions are those of the first one at
  -- its end, or what their JSON is unmarshalled to; and so is its history.
  pub restart :
      (join : List Text → Text) (parse_duration : Text → Option ℤ) (env : Env) (state : Text)
      (files files' : Text → File) (w w' : World o.deps) (p : Process) (es : List (Event o))
      (b : Text)
      → (launch o.deps join parse_duration env state files w).0 ≡ running p
      → All (Allows (λ w. w ≡ wrote)) es
      → files' p.paths.sessions ≡ (run o env es p.server).sessions.file
      → files' p.paths.history ≡ history_file (run o env es p.server).history
      → o.deps.session_codec.encode (run o env es p.server).sessions.doc ≡ some b
      → ((h : History.Store)
          → (run o env es p.server).history ≡ some h
          → (b' : Text) × (o.deps.history_codec.encode h.rows ≡ some b'))
      → (p' : Process) × (h : History.Store) × (h' : History.Store) × (b' : Text) × ((launch o.deps
            join parse_duration env state files' w').0
          ≡ running p')
        × IsReread o.deps.session_codec.decode b
            (run o env es p.server).sessions.doc
            p'.server.sessions.doc
        × ((run o env es p.server).history ≡ some h)
        × (p'.server.history ≡ some h')
        × (o.deps.history_codec.encode h.rows ≡ some b')
        × IsReread o.deps.history_codec.decode b' h.rows h'.rows
  unfolding new_server Store.set_evict_hook
  restart join parse_duration env state files files' w w' p es b launched good left left_log encoded
        encodes =
      let opened = launch-HasOpened o.deps join parse_duration env state files w p launched in
      let s = run o env es p.server in
      let (saved, (h, there, saved_log)) =
        run-IsSaved env es p.server good
          (launched-IsSaved join parse_duration env state files p opened) in
      let (sessions', sessions_open, same) = saved b encoded in
      let (b', encoded_log) = encodes h there in
      let (h', history_open, same_log) = saved_log b' encoded_log in
      let (p', runs, server_so) =
        launch-running o.deps join parse_duration env state files' w' sessions' h'
          (rw (sym (ap (λ q. files' q.sessions) opened.paths_so) ∙ left) sessions_open)
          (rw (sym (ap (λ q. files' q.history) opened.paths_so) ∙ left_log ∙ ap history_file there)
            history_open) in
      (
        p',
        h,
        h',
        b',
        runs,
        subst (λ (t : Server). IsReread o.deps.session_codec.decode b s.sessions.doc t.sessions.doc)
            (sym server_so) same,
        there,
        ap (λ (t : Server). t.history) server_so,
        encoded_log,
        same_log,
      )
