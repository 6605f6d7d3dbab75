-- ===== src/Reflect/Pass/Scheduler/Once.antt =====
-- Which episodes a scheduler takes while entries are appended beside it.
use mathlib.Core.List.{flatten}
use cofiswarm_dispatch.Prelude.{
  ◌≤◌, none, List, [], ◌∷◌, ◌++◌, map, refl, append_assoc, append-nil, take, drop, drop-append,
  take-append-drop, length, length-append, length-take, ◌≡◌, sym, ap, ◌∙◌, arith,
}
use cofiswarm_dispatch.Prelude.Decimal.{max_int}
use cofiswarm_dispatch.Disk.{wrote}
use cofiswarm_dispatch.Json.{Fields}
use cofiswarm_dispatch.History.{Codec}
use cofiswarm_dispatch.History.Episode.{Episode, episodes}
use cofiswarm_dispatch.History.Watermark.{rows-append}
use cofiswarm_dispatch.Reflect.{Services}
use cofiswarm_dispatch.Reflect.Pass.{load_cursor}
use cofiswarm_dispatch.Reflect.Pass.Scheduler.{
  SchedulerOpts, System, Step, appended, began, ended, Reach, here, next, after_begin, after_end,
}
use cofiswarm_dispatch.Reflect.Pass.Scheduler.Reads.{
  new_in, HasRead, idle-position, appended-HasRead, newest, began-parts, began-HasRead,
  ended-HasRead, end_tick-rows,
}

module _ (services : Services) (codec : Codec) (opts : SchedulerOpts) where
  -- The log only grows.
  Step-length :
      {s t : System services codec opts}
      → Step services codec opts s t
      → length s.store.rows ≤ length t.store.rows
  unfolding after_begin after_end
  Step-length (appended s w entry) = omega (
    arith,
    ap length (rows-append codec w entry s.store),
    length-append s.store.rows (entry ∷ []),
  )
  Step-length (began s idle) = omega arith
  Step-length (ended s w b going) =
      let (more, added) = end_tick-rows services codec opts w b s.store s.file s.world in
      omega (arith, ap length added, length-append s.store.rows more)

  Step-HasRead :
      (front : List Fields) {s t : System services codec opts}
      → Step services codec opts s t
      → length t.store.rows ≤ max_int
      → HasRead services codec opts front s
      → HasRead services codec opts front t
  Step-HasRead front (appended s w entry) fits h =
      appended-HasRead services codec opts front s w entry h
  Step-HasRead front (began s idle) fits h = began-HasRead services codec opts front s idle h
  Step-HasRead front (ended s w b going) fits h =
      let st : Step services codec opts s (after_end services codec opts w wrote b s) =
        ended s w b going in
      ended-HasRead services codec opts front s w b going (omega (arith, Step-length st)) h

  Reach-HasRead :
      (front : List Fields) {s t : System services codec opts}
      → HasRead services codec opts front s
      → Reach services codec opts s t
      → length t.store.rows ≤ max_int
      → HasRead services codec opts front t
  Reach-HasRead front h here fits = h
  Reach-HasRead front h (next r st) fits =
      Step-HasRead front st fits (Reach-HasRead front h r (omega (arith, Step-length st)))

  start-HasRead :
      (s : System services codec opts)
      → s.begun ≡ none
      → s.windows ≡ []
      → load_cursor s.file ≤ length s.store.rows
      → HasRead services codec opts (take (load_cursor s.file) s.store.rows) s
  unfolding flatten episodes
  start-HasRead s idle fresh within = record {
    read = [];
    rest = drop (load_cursor s.file) s.store.rows;
    rows_so =
        rw (append-nil (take (load_cursor s.file) s.store.rows))
          (sym (take-append-drop (load_cursor s.file) s.store.rows));
    position_so =
        idle-position services codec opts s idle
        ∙ omega (
          arith,
          length-take (load_cursor s.file) s.store.rows,
          length-append (take (load_cursor s.file) s.store.rows) [],
        );
    parts = [];
    parts_so = refl;
    windows_so = fresh;
    cursor_so = λ b e. cc;
  }

  -- From a state with no tick under way and a cursor within the log, over any sequence of appends, whose
  -- writes may fail, and of ticks that begin and end, with every write of the cursor succeeding and a log whose
  -- length fits an int: when the next tick begins, the episodes of the log from the first cursor on that are no
  -- bookkeeping entries are, in order, parts that follow one another, one for each tick so far, and each tick's
  -- window is its part, cut to the newest of it, as many as the maximum, if that is positive. So no episode is reflected
  -- on twice, and one is passed over only if its part has that many newer ones; also where it was
  -- appended while a tick was under way, and whether or not a reflection succeeded.
  pub run_once :
      {s t : System services codec opts}
      → s.begun ≡ none
      → s.windows ≡ []
      → load_cursor s.file ≤ length s.store.rows
      → Reach services codec opts s t
      → t.begun ≡ none
      → length t.store.rows ≤ max_int
      → (parts : List (List Episode)) × (flatten parts
          ≡ new_in (drop (load_cursor s.file) t.store.rows))
        × ((after_begin services codec opts t).windows ≡ map (newest opts.max_episodes) parts)
  run_once {s} {t} idle fresh within r waiting fits =
      let c = load_cursor s.file in
      let front = take c s.store.rows in
      let h = Reach-HasRead front (start-HasRead s idle fresh within) r fits in
      let cut : length front ≡ c = omega (arith, length-take c s.store.rows) in
      let (parts, parts_so, windows_so) = began-parts services codec opts front t waiting h in
      (
        parts,
        parts_so
            ∙ ap new_in (
                sym (drop-append front (h.read ++ h.rest))
                ∙ rw cut (ap (drop c) (sym (h.rows_so ∙ append_assoc front h.read h.rest)))),
        windows_so,
      )
