-- ===== src/Agent/Sse.antt =====
-- internal/agent/stream_sse.go: the incremental reader of an event stream. The JSON of a frame is read
-- by a parameter: the content of the first choice's delta, `none` where there is none.
pub mod Chunks
pub mod Over
pub mod Preserve
pub mod Told
use cofiswarm_dispatch.Prelude.{
  ℕ, zero, suc, ◌+◌, Text, codes, text_eq, is_empty, has_prefix, Bool, true, false, Option, none,
  some, List, [], ◌∷◌, ◌++◌, length, drop, ◌==◌, if◌then◌else◌,
}
use cofiswarm_dispatch.Prelude.Space.{trim_space}
use cofiswarm_dispatch.Prelude.Utf8.{to_valid_utf8}

-- `chunks` are the calls of `onChunk`, in order.
pub record Drainer : Type 0 where
  pub buf : Text
  pub acc : Text
  pub chunks : List Text
  pub last_data : Text
  pub done : Bool

-- The first frame of a buffer, and what follows the blank line after it.
unfoldable pub cut_frame : Text → Option (Text × Text)
cut_frame [] = none
cut_frame (c ∷ s) =
    if has_prefix (c ∷ s) (codes "\n\n")
    then some ([], drop 2 (c ∷ s))
    else elim (cut_frame s) [ none ↦ none | some (frame, rest) ↦ some (c ∷ frame, rest) ]

-- `bytes.Split(frame, "\n")`; the current line is kept first.
unfoldable pub split_lines : Text → List Text
split_lines [] = [] ∷ []
split_lines (c ∷ s) = elim (split_lines s) [
  | [] ↦ (c ∷ []) ∷ []
  | line ∷ lines ↦ if c == b'\n' then [] ∷ line ∷ lines else (c ∷ line) ∷ lines
]

module _ (delta : Text → Option Text) where
  -- A delta that is not empty.
  take_delta : Option Text → Drainer → Drainer
  take_delta none d = d
  take_delta (some raw) d =
      let c = to_valid_utf8 raw in
      if is_empty c then d else record d { acc = d.acc ++ c; chunks = d.chunks ++ c ∷ [] }

  pub take_data : Text → Drainer → Drainer
  unfolding take_delta
  take_data payload d =
      if text_eq payload (codes "[DONE]")
      then record d { done = true }
      else take_delta (delta payload) (record d { last_data = payload })

  take_line : Drainer → Text → Drainer
  unfolding take_data
  take_line d raw =
      let line = trim_space raw in
      if has_prefix line (codes "data:") then take_data (trim_space (drop 5 line)) d else d

  take_lines : Drainer → List Text → Drainer
  unfolding take_line
  take_lines d [] = d
  take_lines d (line ∷ lines) = take_lines (take_line d line) lines

  unfoldable pub process_frame : Drainer → Text → Drainer
  unfolding take_lines split_lines
  process_frame d frame = take_lines d (split_lines frame)

  -- The loop of `feed` on a buffer. Each round cuts two bytes at least, so `length buf` rounds with one
  -- more are enough.
  drain : ℕ → Text → Drainer → Drainer
  drain zero buf d = record d { buf = buf }
  drain (suc fuel) buf d = elim (cut_frame buf) [
    | none ↦ record d { buf = buf }
    | some (frame, rest) ↦ drain fuel rest (process_frame d frame)
  ]

  unfoldable pub feed : Drainer → Text → Drainer
  unfolding drain cut_frame
  feed d chunk = let buf = d.buf ++ chunk in drain (suc (length buf)) buf d

  unfoldable pub flush : Drainer → Drainer
  flush d = if is_empty d.buf then d else record (process_frame d d.buf) { buf = [] }

unfoldable pub new_drainer : Drainer
new_drainer = record { buf = []; acc = []; chunks = []; last_data = []; done = false }
