-- ===== src/Session/Store.antt =====
-- internal/session/store.go: the sessions, kept in memory and in one JSON file. `AppendRun` holds the lock
-- to the end of the save, so it is one step; the hook runs after it.
pub mod Append
pub mod Reread
use cofiswarm_dispatch.Prelude.{
  ℕ, ◌+◌, Text, codes, is_empty, Bool, true, false, ◌&&◌, Option, none, some, List, [], ◌∷◌, ◌++◌,
  if◌then◌else◌,
}
use cofiswarm_dispatch.Prelude.Decimal.{itoa}
use cofiswarm_dispatch.Prelude.Float.{Float64, FloatOps}
use cofiswarm_dispatch.Disk.{File, missing, unreadable, bytes, Write, Outcome, ok, err, write_file}
use cofiswarm_dispatch.Json.{
  Value, text, float, array, object, Fields, field, end, lookup, insert, as_object,
}
use cofiswarm_dispatch.Session.{as_values, items_of}
use cofiswarm_dispatch.Session.Summarize.{compact_session}

-- `encoding/json` on the document; `null` decodes to the empty one.
pub record Codec : Type 0 where
  pub encode : Fields → Option Text
  pub decode : Text → Option Fields

-- `has_hook`: whether an eviction hook is set.
pub record Store : Type 0 where
  pub doc : Fields
  pub file : File
  pub has_hook : Bool

-- The call of the hook, if it is called: the session and the runs that were evicted.
abbrev pub Handed : Type 0
Handed = Option (Text × List Fields)

abbrev pub or_end : Option Fields → Fields
or_end none = end
or_end (some m) = m

stamp_created : Float64 → Fields → Fields
stamp_created now sess = elim (lookup (codes "created_at") sess) [
  | none ↦ insert (codes "created_at") (float now) sess
  | some v ↦ sess
]

-- The session with the run at its end.
unfoldable pub with_run : Text → Float64 → Fields → Fields → Fields
unfolding stamp_created
with_run session_id now run sess =
    let sess' =
      insert (codes "updated_at") (float now)
        (stamp_created now (insert (codes "id") (text session_id) sess)) in
    insert (codes "runs")
      (array (items_of (as_values (lookup (codes "runs") sess') ++ object run ∷ []))) sess'

unfoldable pub new_id : Text → ℕ → Text
new_id prefix now_ms = prefix ++ codes "_" ++ itoa now_ms

unfoldable pub set_evict_hook : Bool → Store → Store
set_evict_hook on s = record s { has_hook = on }

unfoldable pub hand_over : Outcome → Bool → Text → List Fields → Handed
hand_over err hook session_id evicted = none
hand_over ok false session_id evicted = none
hand_over ok true session_id [] = none
hand_over ok true session_id (e ∷ es) = some (session_id, e ∷ es)

entry_count : Fields → ℕ
entry_count end = 0
entry_count (field k v m) = entry_count m + 1

unfoldable pub count : Store → ℕ
unfolding entry_count
count s = entry_count s.doc

module _ (codec : Codec) where
  load_doc : File → Fields → Fields × Outcome
  load_doc missing doc = (end, ok)
  load_doc unreadable doc = (doc, err)
  load_doc (bytes b) doc = elim (codec.decode b) [ none ↦ (doc, err) | some doc' ↦ (doc', ok) ]

  unfoldable pub load : Store → Store × Outcome
  unfolding load_doc
  load s = let (doc, outcome) = load_doc s.file s.doc in (record s { doc = doc }, outcome)

  -- `New`.
  unfoldable pub open_store : File → Store × Outcome
  unfolding load
  open_store file = load (record { doc = end; file = file; has_hook = false })

  save_bytes : Write → Option Text → Store → Store × Outcome
  save_bytes w none s = (s, err)
  save_bytes w (some b) s =
      let (file, outcome) = write_file w b in (record s { file = file }, outcome)

  -- `Save`, `saveLocked`.
  unfoldable pub save : Write → Store → Store × Outcome
  unfolding save_bytes
  save w s = save_bytes w (codec.encode s.doc) s

module _ (codec : Codec) (ops : FloatOps) where
  unfoldable pub append_run : Write → Float64 → Text → Fields → Store → Store × Outcome × Handed
  unfolding with_run save hand_over
  append_run w now session_id run s =
      let sess = with_run session_id now run (or_end (as_object (lookup session_id s.doc))) in
      let (sess', evicted) = compact_session ops sess 32000 in
      let (s', outcome) =
        save codec w (record s { doc = insert session_id (object sess') s.doc }) in
      (s', outcome, hand_over outcome s.has_hook session_id evicted)
