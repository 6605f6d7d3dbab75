-- ===== src/Reflect/Pass.antt =====
-- internal/reflect/pass.go and scheduler.go: a pass over the new episodes of the history, the file that
-- keeps the watermark, and a tick. The ticker itself only calls `tick` at intervals.
pub mod Cursor
pub mod Window
pub mod Torn
pub mod Outage
pub mod Worlds
pub mod Scheduler
use cofiswarm_dispatch.Prelude.{
  ℕ, zero, suc, ◌+◌, ◌-◌, Text, codes, text_eq, Bool, true, false, not, Option, none, some, List,
  [], ◌∷◌, keep, length, drop, ltb, leb, ◌==◌, if◌then◌else◌,
}
use cofiswarm_dispatch.Prelude.Decimal.{itoa, atoi, ℤ, pos, negsuc}
use cofiswarm_dispatch.Prelude.Space.{trim_space}
use cofiswarm_dispatch.Disk.{File, missing, unreadable, bytes, Write, Outcome, write_file}
use cofiswarm_dispatch.Json.{Fields, end, field, text, int}
use cofiswarm_dispatch.History.{Codec, Store, since, append}
use cofiswarm_dispatch.History.Episode.{Episode, episodes}
use cofiswarm_dispatch.Reflect.{Result, Error, is_unusable, Services, reflect}

-- The bookkeeping entry.
unfoldable pub summary_entry : Result → Fields
summary_entry r = field (codes "source") (text (codes "reflection")) (
    field (codes "episodes") (int (pos r.episodes)) (
      field (codes "proposed") (int (pos r.proposed))
        (field (codes "stored") (int (pos r.stored)) end)))

unfoldable pub is_new : Episode → Bool
is_new e = not (text_eq e.source (codes "reflection"))

-- The most recent ones, if there is a maximum.
unfoldable pub cap_episodes : ℤ → List Episode → List Episode
cap_episodes (negsuc n) es = es
cap_episodes (pos n) es =
    if ltb 0 n then (if ltb n (length es) then drop (length es - n) es else es) else es

unfoldable pub none_done : Result
none_done = record { episodes = 0; proposed = 0; stored = 0 }

-- Everything that a pass returns and changes.
pub record Passed (W : Type 0) : Type 0 where
  pub result : Result
  pub next : ℕ
  pub error : Option Error
  pub store : Store
  pub world : W

module _ (services : Services) (codec : Codec) where
  open services use {World}

  -- After the reflection over a window that ends at `next`.
  finish : Write → Store → (cursor next : ℕ) → Result × Option Error × World → Passed World
  finish w s cursor next (res, some e, world) = record {
    result = res;
    next = if is_unusable e then next else cursor;
    error = some e;
    store = s;
    world = world;
  }
  finish w s cursor next (res, none, world) = record {
    result = res;
    next = next;
    error = none;
    store = (append codec w (summary_entry res) s).0;
    world = world;
  }

  pub run_window : Write → Store → (cursor next : ℕ) → ℤ → List Episode → World → Passed World
  unfolding finish none_done
  run_window w s cursor next max_chars [] world = record {
    result = none_done;
    next = next;
    error = none;
    store = s;
    world = world;
  }
  run_window w s cursor next max_chars (e ∷ es) world =
      finish w s cursor next (reflect services (e ∷ es) max_chars world)

  -- `Pass`. An append that fails is only logged.
  unfoldable pub pass : Write → Store → ℕ → (max_episodes max_chars : ℤ) → World → Passed World
  unfolding run_window cap_episodes
  pass w s cursor max_episodes max_chars world =
      let (rows, next) = since (pos cursor) s in
      run_window w s cursor next max_chars (cap_episodes max_episodes (keep is_new (episodes rows)))
        world

-- `FileCursor.Load`.
load_int : Option ℤ → ℕ
load_int none = 0
load_int (some (negsuc n)) = 0
load_int (some (pos n)) = n

unfoldable pub load_cursor : File → ℕ
unfolding load_int
load_cursor missing = 0
load_cursor unreadable = 0
load_cursor (bytes b) = load_int (atoi (trim_space b))

unfoldable pub save_cursor : Write → ℕ → File → File
save_cursor w cursor file = (write_file w (itoa cursor)).0

module _ (services : Services) (codec : Codec) where
  open services use {World}

  -- `Tick`: the pass, and the cursor file after it. `w` and `w'` are the writes of the two files.
  unfoldable pub tick :
      (w w' : Write) → Store → File → (max_episodes max_chars : ℤ) → World → Passed World × File
  tick w w' s file max_episodes max_chars world =
      let cursor = load_cursor file in
      let p = pass services codec w s cursor max_episodes max_chars world in
      (p, if p.next == cursor then file else save_cursor w' p.next file)
