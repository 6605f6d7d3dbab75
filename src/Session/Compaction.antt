-- ===== src/Session/Compaction.antt =====
-- internal/session/compaction.go: which runs a session drops to fit its budget.
pub mod Latest
use cofiswarm_dispatch.Prelude.{
  ℕ, zero, suc, ◌+◌, ◌-◌, Text, codes, is_empty, Bool, true, false, Option, none, some, List, [],
  ◌∷◌, length, put, leb, ◌==◌, if◌then◌else◌,
}
use cofiswarm_dispatch.Prelude.Float.{Float64, FloatOps, float_of_bits, float_lt}
use cofiswarm_dispatch.Json.{Value, Fields, lookup, as_text, as_object, json_string, strings_of}
use cofiswarm_dispatch.Session.{as_run}
use cofiswarm_dispatch.Session.Importance.{average_importance, rank_outputs}

with_final : Option Text → List (Text × Text) → List (Text × Text)
with_final none m = m
with_final (some f) m = put (codes "_final") f m

text_entries : Option Fields → List (Text × Text)
text_entries none = []
text_entries (some m) = strings_of m

unfoldable pub agent_outputs : Fields → List (Text × Text)
unfolding with_final text_entries
agent_outputs run =
    with_final (as_text (lookup (codes "final") run))
      (text_entries (as_object (lookup (codes "agents") run)))

total_chars : List (Text × Text) → ℕ
total_chars [] = 0
total_chars ((k, v) ∷ m) = length v + total_chars m

unfoldable pub run_chars : Fields → ℕ
unfolding total_chars text_entries
run_chars run =
    length (json_string run (codes "prompt"))
    + total_chars (text_entries (as_object (lookup (codes "agents") run)))
    + length (json_string run (codes "final"))

pub record IndexedScore : Type 0 where
  pub idx : ℕ
  pub score : Float64
  pub run : Fields

unfoldable pub runs_chars : List Value → ℕ
unfolding run_chars
runs_chars [] = 0
runs_chars (r ∷ rs) = run_chars (as_run r) + runs_chars rs

-- A stable insertion: an earlier run stays before a later one of the same score.
unfoldable pub insert_score : IndexedScore → List IndexedScore → List IndexedScore
insert_score x [] = x ∷ []
insert_score x (y ∷ ys) =
    let rest = insert_score x ys in if float_lt y.score x.score then y ∷ rest else x ∷ y ∷ ys

-- The loop over the runs, weakest first.
unfoldable pub drop_loop : (last target total : ℕ) → List IndexedScore → List Text
unfolding run_chars
drop_loop last target total [] = []
drop_loop last target total (s ∷ ss) =
    let id = json_string s.run (codes "run_id") in
    let skip = drop_loop last target total ss in
    let more = drop_loop last target (total - run_chars s.run) ss in
    if s.idx == last
    then skip
    else if leb total target
    then []
    else if is_empty id
    then more
    else id ∷ more

module _ (ops : FloatOps) where
  -- A run with no outputs scores 0.1.
  unfoldable pub score_run : Fields → Float64
  unfolding agent_outputs
  score_run run = elim (agent_outputs run) [
    | [] ↦ float_of_bits 0x3FB999999999999A
    | o ∷ os ↦ average_importance ops (rank_outputs ops (o ∷ os))
  ]

  -- The runs from index `n` on, sorted by score.
  unfoldable pub scored_from : ℕ → List Value → List IndexedScore
  unfolding insert_score score_run
  scored_from n [] = []
  scored_from n (r ∷ rs) =
      insert_score (record { idx = n; score = score_run (as_run r); run = as_run r })
        (scored_from (n + 1) rs)

  unfoldable pub runs_to_drop : List Value → ℕ → List Text
  unfolding scored_from drop_loop runs_chars
  runs_to_drop runs target =
      let total = runs_chars runs in
      let drop = drop_loop (length runs - 1) target total (scored_from 0 runs) in
      if leb total target then [] else drop
