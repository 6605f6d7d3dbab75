-- ===== src/Session/Tests.antt =====
-- A session of two runs.
use cofiswarm_dispatch.Prelude.{
  max, not, keep, map, ◌≤◌, Text, codes, text_eq, text_eq_iff, true, false, some, List, [], ◌∷◌,
  ◌++◌, All, ◌≡◌, ◌≢◌, refl, arith,
}
use cofiswarm_dispatch.Prelude.Float.{FloatOps, zero_float}
use cofiswarm_dispatch.Disk.{missing, wrote}
use cofiswarm_dispatch.Json.{Value, text, array, object, Fields, field, end, lookup, json_string}
use cofiswarm_dispatch.Session.{as_run, as_values, values_of, items_of}
use cofiswarm_dispatch.Session.Compaction.Latest.{HasOtherId}
use cofiswarm_dispatch.Session.Summarize.{is_dropped, compact_session}
use cofiswarm_dispatch.Session.Summarize.Fits.{HasId, last_chars, runs_in, compact_session-fits}
use cofiswarm_dispatch.Session.Compaction.{runs_chars}
use cofiswarm_dispatch.Session.Store.{Codec, Store, append_run}
use cofiswarm_dispatch.Session.Store.Append.{session_runs, IsHanded, append_run-Kept}

abbrev no_rounding : FloatOps
no_rounding = record { add = λ x y. x; mul = λ x y. y; div = λ x y. x; of_nat = λ n. zero_float }

abbrev no_codec : Codec
no_codec = record { encode = λ doc. some []; decode = λ b. some end }

abbrev run_with : Text → Text → Fields
run_with id prompt = field (codes "run_id") (text id) (field (codes "prompt") (text prompt) end)

abbrev first_run : Fields
first_run = run_with (codes "run_1") (codes "Hi")

abbrev second_run : Fields
second_run = run_with (codes "run_2") (codes "And now?")

abbrev sessions : Store
sessions = record {
  doc =
      field (codes "sess_1")
        (object (field (codes "runs") (array (items_of (object first_run ∷ []))) end)) end;
  file = missing;
  has_hook = true;
}

text_ne : (s t : Text) → text_eq s t ≡ false → s ≢ t
text_ne s t h = ground (arith, text_eq_iff s t)

second_fresh :
    All
      (HasOtherId (json_string second_run (codes "run_id")))
      (session_runs (codes "sess_1") sessions)
unfolding lookup text_eq as_values values_of items_of json_string
second_fresh = (text_ne (codes "run_1") (codes "run_2") refl, tt)

append_run-Kept_example :
    let out =
      append_run no_codec no_rounding wrote zero_float (codes "sess_1") second_run sessions in
    (sess : Fields) × (kept : List Value) × (evicted : List Fields) × (lookup
        (codes "sess_1")
        out.0.doc
      ≡ some (object sess))
    × (lookup (codes "runs") sess ≡ some (array (items_of (kept ++ object second_run ∷ []))))
    × (ids : List Text) × (kept
        ≡ keep (λ r. not (is_dropped ids r)) (session_runs (codes "sess_1") sessions))
    × (evicted ≡ map as_run (keep (is_dropped ids) (session_runs (codes "sess_1") sessions)))
    × IsHanded out.1 true (codes "sess_1") evicted out.2
append_run-Kept_example =
    append_run-Kept no_codec no_rounding wrote zero_float (codes "sess_1") second_run sessions
      second_fresh

abbrev two_runs : Fields
two_runs = field (codes "runs") (array (items_of (object first_run ∷ object second_run ∷ []))) end

two_runs-HasId : All HasId (runs_in two_runs)
unfolding lookup text_eq as_values values_of items_of json_string
two_runs-HasId = (refl, (refl, tt))

compact_session-fits_example :
    runs_chars (runs_in (compact_session no_rounding two_runs 4).0)
    ≤ max 4 (last_chars (runs_in two_runs))
compact_session-fits_example = compact_session-fits no_rounding two_runs 4 two_runs-HasId
