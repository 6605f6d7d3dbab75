-- ===== src/Reflect/Pass/Scheduler.antt =====
-- internal/reflect/scheduler.go: the options of `NewScheduler`, and `Run` as a sequence of steps. A tick
-- takes its window at once and ends after the calls of the model, so that the handlers' appends to the log
-- come before it, after it or in between.
pub mod Reads
pub mod Once
use cofiswarm_dispatch.Prelude.{
  ℕ, Bool, true, Option, none, some, List, [], ◌∷◌, ◌++◌, keep, ltb, ◌==◌, if◌then◌else◌, ◌≡◌, refl,
}
use cofiswarm_dispatch.Prelude.Decimal.{ℤ, pos, negsuc}
use cofiswarm_dispatch.Disk.{File, Write, wrote}
use cofiswarm_dispatch.Json.{Fields}
use cofiswarm_dispatch.History.{Codec, Store, since, append}
use cofiswarm_dispatch.History.Episode.{Episode, episodes}
use cofiswarm_dispatch.Reflect.{Services}
use cofiswarm_dispatch.Reflect.Pass.{
  Passed, is_new, cap_episodes, run_window, pass, tick, load_cursor, save_cursor,
}

-- The interval is in nanoseconds.
pub record SchedulerOpts : Type 0 where
  pub interval : ℤ
  pub max_episodes : ℤ
  pub max_chars : ℤ

is_below : ℤ → ℕ → Bool
is_below (negsuc n) m = true
is_below (pos n) m = ltb n m

-- 30 seconds.
abbrev pub min_interval : ℕ
min_interval = 30000000000

-- `NewScheduler` on its options.
unfoldable pub new_scheduler : SchedulerOpts → SchedulerOpts
unfolding is_below
new_scheduler opts =
    if is_below opts.interval min_interval
    then record opts { interval = pos min_interval }
    else opts

-- A tick that has read the cursor and taken its window, cut to the newest episodes.
pub record Begun : Type 0 where
  pub cursor : ℕ
  pub next : ℕ
  pub window : List Episode

unfoldable pub begin_tick : SchedulerOpts → Store → File → Begun
begin_tick opts s file =
    let cursor = load_cursor file in
    let (rows, next) = since (pos cursor) s in
    record {
      cursor = cursor;
      next = next;
      window = cap_episodes opts.max_episodes (keep is_new (episodes rows));
    }

module _ (services : Services) (codec : Codec) (opts : SchedulerOpts) where
  open services use {World}

  -- The reflection over the window, its bookkeeping entry and the cursor. `w` and `w'` are the writes of the
  -- log and of the cursor.
  unfoldable pub end_tick : Write → Write → Begun → Store → File → World → Passed World × File
  unfolding run_window
  end_tick w w' b s file world =
      let p = run_window services codec w s b.cursor b.next opts.max_chars b.window world in
      (p, if p.next == b.cursor then file else save_cursor w' p.next file)

  -- A tick during which nothing is appended is `Tick`.
  pub end_tick-begin_tick :
      (w w' : Write) (s : Store) (file : File) (world : World)
      → end_tick w w' (begin_tick opts s file) s file world
        ≡ tick services codec w w' s file opts.max_episodes opts.max_chars world
  unfolding end_tick begin_tick tick pass
  end_tick-begin_tick w w' s file world = refl

  -- The log, the cursor file, the tick that is under way, and the windows that the ticks have reflected on so
  -- far, in order.
  pub record System : Type 0 where
    pub store : Store
    pub file : File
    pub begun : Option Begun
    pub world : World
    pub windows : List (List Episode)

  unfoldable pub after_begin : System → System
  after_begin s =
      let b = begin_tick opts s.store s.file in
      record s { begun = some b; windows = s.windows ++ b.window ∷ [] }

  unfoldable pub after_end : Write → Write → Begun → System → System
  after_end w w' b s =
      let (p, file) = end_tick w w' b s.store s.file s.world in
      record s { store = p.store; file = file; begun = none; world = p.world }

  -- The loop of `Run` beside the handlers: at each instant an entry is appended, a tick begins where none is
  -- under way, or the one under way ends. Every write of the cursor succeeds; the log's writes may fail.
  pub data Step : System → System → Type 0 where
    appended :
        (s : System) (w : Write) (entry : Fields)
        → Step s (record s { store = (append codec w entry s.store).0 })
    began : (s : System) → s.begun ≡ none → Step s (after_begin s)
    ended : (s : System) (w : Write) (b : Begun) → s.begun ≡ some b → Step s (after_end w wrote b s)

  pub data Reach (s : System) : System → Type 0 where
    here : Reach s s
    next : {t u : System} → Reach s t → Step t u → Reach s u
