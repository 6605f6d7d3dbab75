-- ===== src/Session/Summarize.antt =====
-- internal/session/summarize.go: the runs that are dropped are folded into a rolling summary.
pub mod Bounds
pub mod Keeps
pub mod Fits
use cofiswarm_dispatch.Prelude.{
  ℕ, ◌+◌, ◌-◌, ◌/◌, Text, codes, text_eq, is_empty, Bool, true, false, not, ◌||◌, Option, none,
  some, List, [], ◌∷◌, ◌++◌, length, drop, get, or_empty, keep, map, ltb, leb, if◌then◌else◌,
}
use cofiswarm_dispatch.Prelude.Float.{FloatOps}
use cofiswarm_dispatch.Prelude.Space.{trim_space}
use cofiswarm_dispatch.Prelude.Utf8.{to_valid_utf8}
use cofiswarm_dispatch.Json.{
  Value, text, array, object, Fields, field, end, lookup, insert, json_string,
}
use cofiswarm_dispatch.Session.{trim_block, first_lines, as_run, as_values, items_of}
use cofiswarm_dispatch.Session.Importance.{Scored, rank_outputs}
use cofiswarm_dispatch.Session.Compaction.{agent_outputs, runs_to_drop}

-- U+2022 and a space.
abbrev bullet : Text
bullet = 0xE2 ∷ 0x80 ∷ 0xA2 ∷ 0x20 ∷ []

abbrev shown_name : Text → Text
shown_name n = if text_eq n (codes "_final") then codes "final" else n

-- One line for each output, until the digest is long enough.
output_lines : ℕ → List (Text × Text) → List Scored → Text → Text
output_lines max_chars outputs [] out = out
output_lines max_chars outputs (sc ∷ ranked) out =
    let out' =
      out
      ++ bullet
      ++ shown_name sc.name
      ++ codes ": "
      ++ first_lines (or_empty (get sc.name outputs)) 2 (max_chars / 2)
      ++ codes "\n" in
    let more = output_lines max_chars outputs ranked out' in
    if leb max_chars (length out') then out' else more

-- The parts joined by newlines.
join_lines : List Text → Text
join_lines [] = []
join_lines (p ∷ []) = p
join_lines (p ∷ q ∷ ps) = p ++ codes "\n" ++ join_lines (q ∷ ps)

unfoldable pub cap_summary : Text → Text
cap_summary out =
    if ltb 6000 (length out)
    then codes "[...earlier summary compacted...]\n" ++ to_valid_utf8 (drop (length out - 6000) out)
    else out

unfoldable pub in_set : Text → List Text → Bool
in_set id [] = false
in_set id (d ∷ ds) = text_eq id d || in_set id ds

-- A map whose id is among those to drop.
unfoldable pub is_dropped : List Text → Value → Bool
unfolding in_set
is_dropped ids (object run) = in_set (json_string run (codes "run_id")) ids
is_dropped ids _ = false

module _ (ops : FloatOps) where
  unfoldable pub digest_run : Fields → ℕ → Text
  unfolding output_lines
  digest_run run max_chars =
      let p = json_string run (codes "prompt") in
      let ask =
        if is_empty p
        then []
        else bullet ++ codes "ask: " ++ first_lines p 1 (max_chars / 3) ++ codes "\n" in
      let outputs = agent_outputs run in
      trim_space
        (trim_block (output_lines max_chars outputs (rank_outputs ops outputs) ask) max_chars)

  digests : List Fields → List Text
  digests [] = []
  digests (run ∷ runs) =
      let d = digest_run run 600 in if is_empty d then digests runs else d ∷ digests runs

  unfoldable pub fold_summary : Text → List Fields → Text
  unfolding cap_summary join_lines digests
  fold_summary existing dropped = trim_space (
      cap_summary
        (join_lines (if is_empty existing then digests dropped else existing ∷ digests dropped)))

  -- Split by the ids to drop.
  split_session : Fields → List Value → List Text → Fields × List Fields
  split_session sess runs ids =
      let kept = keep (λ r. not (is_dropped ids r)) runs in
      elim (map as_run (keep (is_dropped ids) runs)) [
        | [] ↦ (sess, [])
        | d ∷ ds ↦ (
          insert (codes "runs") (array (items_of kept)) (
              insert (codes "summary")
                (text (fold_summary (json_string sess (codes "summary")) (d ∷ ds))) sess),
          d ∷ ds,
        )
      ]

  -- The session after it, and the runs that were evicted, in their order.
  unfoldable pub compact_session : Fields → ℕ → Fields × List Fields
  unfolding split_session runs_to_drop
  compact_session sess target =
      let runs = as_values (lookup (codes "runs") sess) in
      if leb (length runs) 1
      then (sess, [])
      else split_session sess runs (runs_to_drop ops runs target)
