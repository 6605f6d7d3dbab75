-- ===== src/Session.antt =====
-- internal/session/text.go and tokens.go: the helpers on the text of a session. (Session/Context
-- has the helpers that read a policy.)
pub mod Importance
pub mod Compaction
pub mod Summarize
pub mod Store
pub mod Context
pub mod Tests
use cofiswarm_dispatch.Prelude.{
  ℕ, ◌+◌, ◌-◌, ◌*◌, ◌/◌, Text, codes, is_empty, Bool, true, false, ◌&&◌, List, [], ◌∷◌, ◌++◌,
  length, take, drop, ltb, leb, ◌==◌, if◌then◌else◌, Option, none, some,
}
use cofiswarm_dispatch.Prelude.Decimal.{itoa}
use cofiswarm_dispatch.Prelude.Utf8.{to_valid_utf8}
use cofiswarm_dispatch.Json.{Value, object, Fields, end, Items, nil, cons, array}

unfoldable pub estimate_tokens : Text → ℕ
estimate_tokens s = if is_empty s then 0 else (length s + 4 - 1) / 4

-- On a budget that is not negative (Session/Context has the other case); a tiny one cuts hard.
unfoldable pub trim_block : Text → ℕ → Text
trim_block s max_chars =
    let head = max_chars * 2 / 3 in
    let tail = max_chars - head in
    if leb (length s) max_chars
    then s
    else if ltb max_chars 256
    then to_valid_utf8 (take max_chars s)
    else to_valid_utf8 (take head s)
      ++ codes "\n\n[...compacted: omitted "
      ++ itoa (length s - max_chars)
      ++ codes " chars...]\n\n"
      ++ to_valid_utf8 (drop (length s - tail) s)

-- The bytes that the loop keeps.
first_bytes : (lines room : ℕ) → Text → Text
first_bytes lines room [] = []
first_bytes lines room (c ∷ s) =
    let newline = c == b'\n' in
    let rest = first_bytes (if newline then lines - 1 else lines) (room - 1) s in
    if leb room 0 then [] else if newline && leb lines 1 then c ∷ [] else c ∷ rest

unfoldable pub first_lines : Text → (max_lines max_chars : ℕ) → Text
unfolding first_bytes
first_lines s max_lines max_chars =
    let out = first_bytes max_lines max_chars s in
    let res = to_valid_utf8 out in
    if ltb (length out) (length s) then res ++ codes "\n[...compacted...]" else res

-- `run, _ := r.(map[string]any)`: what is not a map reads as the empty one.
abbrev pub as_run : Value → Fields
as_run (object m) = m
as_run _ = end

-- A `[]any` and the list of its values.
unfoldable pub values_of : Items → List Value
values_of nil = []
values_of (cons v vs) = v ∷ values_of vs

unfoldable pub items_of : List Value → Items
items_of [] = nil
items_of (v ∷ vs) = cons v (items_of vs)

-- `runs, _ := m[k].([]any)`.
unfoldable pub as_values : Option Value → List Value
unfolding values_of
as_values (some (array vs)) = values_of vs
as_values _ = []
