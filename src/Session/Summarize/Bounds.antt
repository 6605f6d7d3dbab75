-- ===== src/Session/Summarize/Bounds.antt =====
-- The length of the rolling summary.
use cofiswarm_dispatch.Prelude.{
  ◌-◌, ◌≤◌, Text, codes, List, length, length-append, length-drop, drop, arith,
}
use cofiswarm_dispatch.Prelude.Float.{FloatOps}
use cofiswarm_dispatch.Prelude.Space.{length-trim_space-le}
use cofiswarm_dispatch.Prelude.Utf8.{to_valid_utf8, length-to_valid_utf8-le}
use cofiswarm_dispatch.Json.{Fields}
use cofiswarm_dispatch.Session.Summarize.{cap_summary, fold_summary}

length-cap_summary-le : (out : Text) → length (cap_summary out) ≤ 6034
unfolding cap_summary
length-cap_summary-le out =
    let tail = drop (length out - 6000) out in
    ground (
      arith,
      length-append (codes "[...earlier summary compacted...]\n") (to_valid_utf8 tail),
      length-to_valid_utf8-le tail,
      length-drop (length out - 6000) out,
    )

-- However many runs are folded in, and however long the summary was, the new one has at most 6000 bytes
-- and the 34 of the marker.
pub length-fold_summary-le :
    (ops : FloatOps) (existing : Text) (dropped : List Fields)
    → length (fold_summary ops existing dropped) ≤ 6034
unfolding fold_summary
length-fold_summary-le ops existing dropped =
    omega (arith, length-trim_space-le (cap_summary _), length-cap_summary-le _)
