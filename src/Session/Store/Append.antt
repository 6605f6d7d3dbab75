-- ===== src/Session/Store/Append.antt =====
-- `AppendRun`: what a session holds after it.
use cofiswarm_dispatch.Prelude.{
  not, keep, map, Text, codes, text_eq, text_eq_iff, Bool, true, false, ◌⊎◌, none, some, List, [],
  ◌∷◌, ◌++◌, All, ◌≡◌, ◌≢◌, refl, ap, ◌∙◌, arith, Option-cases, inl, inr,
}
use cofiswarm_dispatch.Prelude.Float.{Float64, FloatOps}
use cofiswarm_dispatch.Disk.{Write, Outcome, ok, err}
use cofiswarm_dispatch.Json.{
  Value, text, float, array, object, Fields, lookup, insert, as_object, json_string,
}
use cofiswarm_dispatch.Session.{as_run, as_values, items_of}
use cofiswarm_dispatch.Session.Compaction.Latest.{HasOtherId}
use cofiswarm_dispatch.Session.Summarize.{is_dropped, compact_session}
use cofiswarm_dispatch.Session.Summarize.Keeps.{compact_session-Kept, lookup-insert}
use cofiswarm_dispatch.Session.Store.{
  Codec, Store, Handed, or_end, hand_over, stamp_created, with_run, save, save_bytes, append_run,
}

-- The runs of a session, none where there is no such session.
abbrev pub session_runs : Text → Store → List Value
session_runs session_id s =
    as_values (lookup (codes "runs") (or_end (as_object (lookup session_id s.doc))))

stamp_created-runs :
    (now : Float64) (sess : Fields)
    → lookup (codes "runs") (stamp_created now sess) ≡ lookup (codes "runs") sess
unfolding stamp_created text_eq
stamp_created-runs now sess = elim (Option-cases (lookup (codes "created_at") sess)) [
  | inl e ↦
      rw (e, stamp_created, lookup-insert (codes "created_at") (codes "runs") (float now) sess)
  | inr (v, e) ↦ rw (e, stamp_created)
]

with_run-runs :
    (session_id : Text) (now : Float64) (run sess : Fields)
    → lookup (codes "runs") (with_run session_id now run sess)
      ≡ some (array (items_of (as_values (lookup (codes "runs") sess) ++ object run ∷ [])))
unfolding with_run text_eq
with_run-runs session_id now run sess =
    let with_id = insert (codes "id") (text session_id) sess in
    let stamped = stamp_created now with_id in
    let sess' = insert (codes "updated_at") (float now) stamped in
    let same : lookup (codes "runs") sess' ≡ lookup (codes "runs") sess =
      lookup-insert (codes "updated_at") (codes "runs") (float now) stamped
      ∙ stamp_created-runs now with_id
      ∙ lookup-insert (codes "id") (codes "runs") (text session_id) sess in
    lookup-insert (codes "runs") (codes "runs")
      (array (items_of (as_values (lookup (codes "runs") sess') ++ object run ∷ []))) sess'
    ∙ ap (λ o. some (array (items_of (as_values o ++ object run ∷ [])))) same

pub doc-save : (codec : Codec) (w : Write) (s : Store) → (save codec w s).0.doc ≡ s.doc
unfolding save save_bytes
doc-save codec w s = elim (Option-cases (codec.encode s.doc)) [ inl e ↦ rw e | inr (b, e) ↦ rw e ]

-- The evicted runs are handed over, or the save failed, there is no hook, or there are none.
abbrev pub IsHanded : Outcome → (has_hook : Bool) → Text → (evicted : List Fields) → Handed → Type 0
IsHanded outcome has_hook session_id evicted handed =
    ((outcome ≡ ok) × (has_hook ≡ true) × (evicted ≢ []) × (handed ≡ some (session_id, evicted)))
    ⊎ (((outcome ≡ err) ⊎ (has_hook ≡ false) ⊎ (evicted ≡ [])) × (handed ≡ none))

hand_over-IsHanded :
    (outcome : Outcome) (has_hook : Bool) (session_id : Text) (evicted : List Fields)
    → IsHanded outcome has_hook session_id evicted (hand_over outcome has_hook session_id evicted)
unfolding hand_over
hand_over-IsHanded err has_hook session_id evicted = inr (inl refl, refl)
hand_over-IsHanded ok false session_id evicted = inr (inr (inl refl), refl)
hand_over-IsHanded ok true session_id [] = inr (inr (inr refl), refl)
hand_over-IsHanded ok true session_id (e ∷ es) = inl (refl, refl, cc, refl)

module _ (codec : Codec) (ops : FloatOps) where
  -- Where the ids of a session's runs differ from a new run's, the session ends with the new run after
  -- `AppendRun`, whatever its size and whether or not the save succeeds. There are ids such that the earlier
  -- runs with one of them are evicted and the others kept, both in their order; the evicted ones are handed
  -- to the hook exactly if the save succeeded, there is a hook and there are any.
  pub append_run-Kept :
      (w : Write) (now : Float64) (session_id : Text) (run : Fields) (s : Store)
      → All (HasOtherId (json_string run (codes "run_id"))) (session_runs session_id s)
      → let out = append_run codec ops w now session_id run s in
        (sess : Fields) × (kept : List Value) × (evicted : List Fields) × (lookup session_id
            out.0.doc
          ≡ some (object sess))
        × (lookup (codes "runs") sess ≡ some (array (items_of (kept ++ object run ∷ []))))
        × (ids : List Text) × (kept
            ≡ keep (λ r. not (is_dropped ids r)) (session_runs session_id s))
        × (evicted ≡ map as_run (keep (is_dropped ids) (session_runs session_id s)))
        × IsHanded out.1 s.has_hook session_id evicted out.2
  unfolding append_run
  append_run-Kept w now session_id run s others =
      let before = or_end (as_object (lookup session_id s.doc)) in
      let sess = with_run session_id now run before in
      let compacted = compact_session ops sess 32000 in
      let k =
        compact_session-Kept ops sess (session_runs session_id s) run 32000
          (with_run-runs session_id now run before) others in
      let doc = insert session_id (object compacted.0) s.doc in
      (
        compacted.0,
        k.kept,
        compacted.1,
        rw (
          doc-save codec w (record s { doc = doc }),
          lookup-insert session_id session_id (object compacted.0) s.doc,
          (text_eq_iff session_id session_id).1 refl,
        ),
        k.latest,
        k.ids,
        k.kept_so,
        k.evicted_so,
        hand_over-IsHanded _ s.has_hook session_id compacted.1,
      )

  -- `AppendRun` leaves the other sessions alone.
  pub lookup-append_run :
      (w : Write) (now : Float64) (session_id other : Text) (run : Fields) (s : Store)
      → session_id ≢ other
      → lookup other (append_run codec ops w now session_id run s).0.doc ≡ lookup other s.doc
  unfolding append_run
  lookup-append_run w now session_id other run s h =
      let sess = with_run session_id now run (or_end (as_object (lookup session_id s.doc))) in
      let compacted = object (compact_session ops sess 32000).0 in
      rw
        (
          doc-save codec w (record s { doc = insert session_id compacted s.doc }),
          lookup-insert session_id other compacted s.doc,
        )
        (ground (arith, text_eq_iff session_id other))
