-- ===== src/Httpapi/Evict.antt =====
-- The hand-off of evicted runs: what leaves a session goes to the history.
use cofiswarm_dispatch.Prelude.{
  ℕ, ◌+◌, not, keep, map, Text, codes, text_eq, if◌then◌else◌, Bool, true, Option, some, List, [],
  ◌∷◌, ◌++◌, All, append_assoc, append-nil, ◌≡◌, refl, ap, ◌∙◌, sym, subst, inl, inr,
}
use cofiswarm_dispatch.Disk.{Write, Outcome, ok}
use cofiswarm_dispatch.Json.{
  Value, text, array, object, end, field, insert, Fields, lookup, json_string,
}
use cofiswarm_dispatch.History
use cofiswarm_dispatch.History.Watermark.{rows-append}
use cofiswarm_dispatch.Session.{as_run, items_of}
use cofiswarm_dispatch.Session.Compaction.Latest.{HasOtherId}
use cofiswarm_dispatch.Session.Summarize.{is_dropped}
use cofiswarm_dispatch.Session.Summarize.Keeps.{lookup-insert}
use cofiswarm_dispatch.Session.Store.{Handed, append_run}
use cofiswarm_dispatch.Session.Store.Append.{session_runs, IsHanded, append_run-Kept}
use cofiswarm_dispatch.Httpapi.{
  Server, Deps, Moment, evict_entry, copy_into, append_evicted, evict_hook, keep_run,
}

pub rows-append_evicted :
    (codec : History.Codec) (disk : ℕ → Write) (n : ℕ) (session_id : Text) (runs : List Fields)
    (h : History.Store)
    → (append_evicted codec disk n session_id runs h).rows
      ≡ h.rows ++ map (evict_entry session_id) runs
unfolding append_evicted
rows-append_evicted codec disk n session_id [] h = sym (append-nil h.rows)
rows-append_evicted codec disk n session_id (run ∷ runs) h =
    let entry = evict_entry session_id run in
    rows-append_evicted codec disk (n + 1) session_id runs (History.append codec (disk n) entry h).0
    ∙ ap (λ r. r ++ map (evict_entry session_id) runs) (rows-append codec (disk n) entry h)
    ∙ append_assoc h.rows (entry ∷ []) (map (evict_entry session_id) runs)

-- The history's rows, with these entries after them.
abbrev pub IsHistoryWith : List Fields → Option History.Store → Type 0
IsHistoryWith rows history = (h : History.Store) × (history ≡ some h) × (h.rows ≡ rows)

-- The value of a key in a map that is filled from the fields, in order, over what it holds at first.
abbrev pub latest : Text → Fields → Option Value → Option Value
latest k end old = old
latest k (field j v run) old = latest k run (if text_eq j k then some v else old)

-- What an entry holds beside the keys of its run.
abbrev pub marks : Text → Fields
marks session_id =
    field (codes "session_id") (text session_id)
      (field (codes "source") (text (codes "working_memory_evict")) end)

-- An entry has every key of the run, with the run's value, and the two marks where the run has no such key.
abbrev pub IsEntryOf : Text → Fields → Fields → Type 0
IsEntryOf session_id run entry =
    (k : Text) → lookup k entry ≡ latest k run (lookup k (marks session_id))

abbrev pub AreEntriesOf : Text → (runs entries : List Fields) → Type 0
AreEntriesOf session_id [] [] = Unit
AreEntriesOf session_id (run ∷ runs) (e ∷ es) =
    IsEntryOf session_id run e × AreEntriesOf session_id runs es
AreEntriesOf session_id [] (e ∷ es) = ⊥
AreEntriesOf session_id (run ∷ runs) [] = ⊥

lookup-copy_into :
    (k : Text) (run entry : Fields) → lookup k (copy_into run entry) ≡ latest k run (lookup k entry)
unfolding copy_into
lookup-copy_into k end entry = refl
lookup-copy_into k (field j v run) entry =
    lookup-copy_into k run (insert j v entry) ∙ ap (latest k run) (lookup-insert j k v entry)

evict_entry-IsEntryOf :
    (session_id : Text) (run : Fields) → IsEntryOf session_id run (evict_entry session_id run)
unfolding evict_entry
evict_entry-IsEntryOf session_id run k = lookup-copy_into k run (marks session_id)

evict_entry-AreEntriesOf :
    (session_id : Text) (runs : List Fields)
    → AreEntriesOf session_id runs (map (evict_entry session_id) runs)
evict_entry-AreEntriesOf session_id [] = tt
evict_entry-AreEntriesOf session_id (run ∷ runs) =
    (evict_entry-IsEntryOf session_id run, evict_entry-AreEntriesOf session_id runs)

-- The rows with the entries of these runs behind them, in order.
abbrev pub HasTaken : Text → (rows runs : List Fields) → Option History.Store → Type 0
HasTaken session_id rows runs history =
    (entries : List Fields) × AreEntriesOf session_id runs entries
    × IsHistoryWith (rows ++ entries) history

evict_hook-handed :
    (codec : History.Codec) (disk : ℕ → Write) (session_id : Text) (evicted : List Fields)
    (h : History.Store) (handed : Handed) (outcome : Outcome) (hook : Bool)
    (history : Option History.Store)
    → IsHanded outcome hook session_id evicted handed
    → outcome ≡ ok
    → hook ≡ true
    → history ≡ some h
    → HasTaken session_id h.rows evicted (evict_hook codec disk handed history)
unfolding evict_hook
evict_hook-handed codec disk session_id evicted h handed outcome hook history
      (inl (o, k, some_, given)) saved hooked there =
    (
      map (evict_entry session_id) evicted,
      evict_entry-AreEntriesOf session_id evicted,
      rw (given, there, evict_hook)
          (_, refl, rows-append_evicted codec disk 0 session_id evicted h),
    )
evict_hook-handed codec disk session_id evicted h handed outcome hook history (inr (inl e, given))
      saved hooked there =
    absurd (cc)
evict_hook-handed codec disk session_id evicted h handed outcome hook history
      (inr (inr (inl e), given)) saved hooked there =
    absurd (cc)
evict_hook-handed codec disk session_id evicted h handed outcome hook history
      (inr (inr (inr e), given)) saved hooked there =
    rw (e, given, there, evict_hook) ([], tt, (h, refl, sym (append-nil h.rows)))

-- With a history and its hook, for a new run whose id differs from those of the session's runs, and a save
-- that succeeds: no run is lost. There are ids such that the earlier runs that have one of them stand at the
-- end of the history, in their order, whether or not the history's own writes
-- succeed: an entry holds every key of its run with the run's value, and the session's id and the source
-- where the run has no such key; the others stand in the session, in their order, before the new run.
pub keep_run-history :
    (deps : Deps) (moment : Moment) (session_id : Text) (run : Fields) (s : Server)
    (h : History.Store)
    → s.history ≡ some h
    → s.sessions.has_hook ≡ true
    → (append_run deps.session_codec deps.ops moment.session_write moment.appended_at session_id run
        s.sessions).1
      ≡ ok
    → All (HasOtherId (json_string run (codes "run_id"))) (session_runs session_id s.sessions)
    → let runs = session_runs session_id s.sessions in
      let s' = keep_run deps moment session_id run s in
      (ids : List Text) × (sess : Fields) × (lookup session_id s'.sessions.doc ≡ some (object sess))
      × (lookup (codes "runs") sess
          ≡ some (array (items_of (keep (λ r. not (is_dropped ids r)) runs ++ object run ∷ []))))
      × HasTaken session_id h.rows (map as_run (keep (is_dropped ids) runs)) s'.history
unfolding keep_run
keep_run-history deps moment session_id run s h there hooked saved fresh =
    let (sess, kept, evicted, stored, runs_so, ids, kept_so, evicted_so, handed) =
      append_run-Kept deps.session_codec deps.ops moment.session_write moment.appended_at session_id
        run s.sessions fresh in
    (
      ids,
      sess,
      stored,
      rw (← kept_so) runs_so,
      subst
          (λ runs. HasTaken session_id h.rows runs (keep_run deps moment session_id run s).history)
          evicted_so
          (evict_hook-handed deps.history_codec moment.history_write session_id evicted h _ _ _ _
            handed saved hooked there),
    )
