-- ===== src/Agent/Sse/Preserve.antt =====
-- What `take_data` preserves, whatever bytes are held back, the drainer preserves.
use cofiswarm_dispatch.Prelude.{
  ℕ, zero, suc, Text, codes, is_empty, has_prefix, drop, Option, List, [], ◌∷◌, ◌++◌, length,
  Bool-cases, Option-cases, inl, inr,
}
use cofiswarm_dispatch.Prelude.Space.{trim_space}
use cofiswarm_dispatch.Agent.Sse.{
  Drainer, cut_frame, split_lines, process_frame, drain, feed, flush, take_data, take_line,
  take_lines,
}

module _ (delta : Text → Option Text) (P : Drainer → Type 0)
    (take_data-P : (payload : Text) (d : Drainer) → P d → P (take_data delta payload d))
    (set_buf-P : (buf : Text) (d : Drainer) → P d → P (record d { buf = buf })) where
  take_line-P : (d : Drainer) (raw : Text) → P d → P (take_line delta d raw)
  unfolding take_line
  take_line-P d raw h = elim (Bool-cases (has_prefix (trim_space raw) (codes "data:"))) [
    | inl e ↦ rw e (take_data-P (trim_space (drop 5 (trim_space raw))) d h)
    | inr e ↦ rw e h
  ]

  take_lines-P : (d : Drainer) (lines : List Text) → P d → P (take_lines delta d lines)
  unfolding take_lines
  take_lines-P d [] h = h
  take_lines-P d (line ∷ lines) h =
      take_lines-P (take_line delta d line) lines (take_line-P d line h)

  process_frame-P : (d : Drainer) (frame : Text) → P d → P (process_frame delta d frame)
  unfolding process_frame
  process_frame-P d frame h = take_lines-P d (split_lines frame) h

  drain-P : (fuel : ℕ) (buf : Text) (d : Drainer) → P d → P (drain delta fuel buf d)
  unfolding drain
  drain-P zero buf d h = set_buf-P buf d h
  drain-P (suc fuel) buf d h = elim (Option-cases (cut_frame buf)) [
    | inl e ↦ rw (e, drain) (set_buf-P buf d h)
    | inr ((frame, rest), e) ↦
        rw (e, drain) (drain-P fuel rest (process_frame delta d frame) (process_frame-P d frame h))
  ]

  pub feed-P : (d : Drainer) (c : Text) → P d → P (feed delta d c)
  unfolding feed
  feed-P d c h = drain-P (suc (length (d.buf ++ c))) (d.buf ++ c) d h

  pub flush-P : (d : Drainer) → P d → P (flush delta d)
  unfolding flush
  flush-P d h = elim (Bool-cases (is_empty d.buf)) [
    | inl e ↦ rw e h
    | inr e ↦ rw e (set_buf-P [] (process_frame delta d d.buf) (process_frame-P d d.buf h))
  ]
