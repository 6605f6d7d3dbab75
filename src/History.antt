-- ===== src/History.antt =====
-- internal/history/store.go: the append-only log of runs, kept in memory and in one JSON file.
-- Each method holds the lock while it reads or writes the rows, so it is one step; `Append` releases
-- the lock before it saves. Reading and writing the file is given by what the file system answers.
pub mod Episode
pub mod Watermark
pub mod Search
pub mod Restart
pub mod Reread
pub mod Race
pub mod Tests
use cofiswarm_dispatch.Prelude.{
  ℕ, zero, suc, ◌+◌, ◌-◌, Text, codes, contains, is_empty, Bool, true, false, ◌||◌, Option, none,
  some, List, [], ◌∷◌, ◌++◌, length, drop, reverse, ltb, leb, if◌then◌else◌,
}
use cofiswarm_dispatch.Prelude.Decimal.{ℤ, pos, negsuc}
use cofiswarm_dispatch.Disk.{File, missing, unreadable, bytes, Write, Outcome, ok, err, write_file}
use cofiswarm_dispatch.Json.{Value, text, Fields, end, field, lookup, as_text}

-- `encoding/json` on the rows; `none` is an error.
pub record Codec : Type 0 where
  pub encode : List Fields → Option Text
  pub decode : Text → Option (List Fields)

pub record Store : Type 0 where
  pub rows : List Fields
  pub file : File

module _ (codec : Codec) where
  load_rows : File → List Fields → List Fields × Outcome
  load_rows missing rows = ([], ok)
  load_rows unreadable rows = (rows, err)
  load_rows (bytes b) rows = elim (codec.decode b) [ none ↦ (rows, err) | some rows' ↦ (rows', ok) ]

  -- A failed load leaves the rows as they are.
  unfoldable pub load : Store → Store × Outcome
  unfolding load_rows
  load s = let (rows, outcome) = load_rows s.file s.rows in (record s { rows = rows }, outcome)

  -- `New`.
  unfoldable pub open_store : File → Store × Outcome
  unfolding load
  open_store file = load (record { rows = []; file = file })

  save_bytes : Write → Option Text → Store → Store × Outcome
  save_bytes w none s = (s, err)
  save_bytes w (some b) s =
      let (file, outcome) = write_file w b in (record s { file = file }, outcome)

  -- `saveUnlocked`, `Save`.
  unfoldable pub save : Write → Store → Store × Outcome
  unfolding save_bytes write_file
  save w s = save_bytes w (codec.encode s.rows) s

  -- The row stays in memory also where the save fails.
  unfoldable pub append : Write → Fields → Store → Store × Outcome
  unfolding save
  append w entry s = save w (record s { rows = s.rows ++ entry ∷ [] })

unfoldable pub all_rows : Store → List Fields
all_rows s = s.rows

unfoldable pub len : Store → ℕ
len s = length s.rows

-- The clamped watermark.
unfoldable pub clamp_cursor : ℤ → ℕ → ℕ
clamp_cursor (negsuc n) size = 0
clamp_cursor (pos n) size = if ltb size n then size else n

unfoldable pub since : ℤ → Store → List Fields × ℕ
unfolding clamp_cursor
since cursor s = (drop (clamp_cursor cursor (length s.rows)) s.rows, length s.rows)

unfoldable pub clamp_limit : ℤ → ℕ
clamp_limit (negsuc n) = 20
clamp_limit (pos n) = if ltb n 1 then 20 else if ltb 100 n then 100 else n

module _ (lower : Text → Text) where
  value_matches : Text → Option Value → Bool
  value_matches q (some (text p)) = contains (lower p) q
  value_matches q _ = false

  unfoldable pub any_matches : Text → Fields → Bool
  unfolding value_matches
  any_matches q end = false
  any_matches q (field k v m) = value_matches q (some v) || any_matches q m

  -- The prompt is looked at first. `lower` is `strings.ToLower`.
  unfoldable pub matches : Fields → Text → Bool
  unfolding value_matches any_matches
  matches row q = value_matches q (lookup (codes "prompt") row) || any_matches q row

  -- Rows from the last to the first, until `out` holds `limit` of them.
  search_loop : ℕ → Text → List Fields → List Fields → List Fields
  search_loop limit q [] out = out
  search_loop limit q (row ∷ rest) out =
      let out' = if is_empty q || matches row q then out ++ row ∷ [] else out in
      let more = search_loop limit q rest out' in if ltb (length out) limit then more else out

  unfoldable pub search : Text → ℤ → Store → List Fields
  unfolding search_loop clamp_limit
  search q limit s = search_loop (clamp_limit limit) (lower q) (reverse s.rows) []
