-- ===== src/Reflect/Pass/Scheduler/Reads.antt =====
-- What a scheduler has read of the log, kept by each step.
use mathlib.Core.List.{flatten, map-append}
use cofiswarm_dispatch.Prelude.{
  ℕ, zero, suc, ◌≤◌, ◌-◌, drop, map, ltb, refl, true, Option, none, some, List, [], ◌∷◌, ◌++◌,
  append_assoc, append-nil, keep, keep-append, length, length-append, ◌==◌, ◌≡◌, inl, inr, sym, ap,
  ◌∙◌, arith, Bool-cases, ==_iff,
}
use cofiswarm_dispatch.Prelude.Decimal.{ℤ, pos, negsuc, max_int}
use cofiswarm_dispatch.Disk.{File, Write, wrote}
use cofiswarm_dispatch.Json.{Fields}
use cofiswarm_dispatch.History.{Codec, Store, since, append}
use cofiswarm_dispatch.History.Episode.{Episode, episodes}
use cofiswarm_dispatch.History.Watermark.{rows-append, since-tail}
use cofiswarm_dispatch.Reflect.{Services}
use cofiswarm_dispatch.Reflect.Pass.{is_new, cap_episodes, run_window, load_cursor}
use cofiswarm_dispatch.Reflect.Pass.Cursor.{load_cursor-save_cursor}
use cofiswarm_dispatch.Reflect.Pass.Window.{run_window-next, run_window-rows}
use cofiswarm_dispatch.Reflect.Pass.Scheduler.{
  SchedulerOpts, Begun, System, begin_tick, end_tick, after_begin, after_end,
}

-- The new episodes among the rows.
abbrev pub new_in : List Fields → List Episode
new_in rows = keep is_new (episodes rows)

new_in-append : (xs ys : List Fields) → new_in (xs ++ ys) ≡ new_in xs ++ new_in ys
unfolding episodes
new_in-append xs ys = rw map-append (keep-append is_new (episodes xs) (episodes ys))

-- The newest of some episodes, as many as the cap if it is positive.
abbrev pub newest : ℤ → List Episode → List Episode
newest (negsuc n) es = es
newest (pos zero) es = es
newest (pos (suc n)) es = drop (length es - suc n) es

cap_episodes-newest : (cap : ℤ) (es : List Episode) → cap_episodes cap es ≡ newest cap es
unfolding cap_episodes
cap_episodes-newest (negsuc n) es = refl
cap_episodes-newest (pos zero) es = refl
cap_episodes-newest (pos (suc n)) es =
    let positive : ltb 0 (suc n) ≡ true = ground arith in
    elim (Bool-cases (ltb (suc n) (length es))) [
      | inl e ↦ rw (positive, e)
      | inr e ↦ let all : length es - suc n ≡ 0 = ground arith in rw (positive, e, all)
    ]

flatten-snoc :
    (ws : List (List Episode)) (w : List Episode) → flatten (ws ++ w ∷ []) ≡ flatten ws ++ w
unfolding flatten
flatten-snoc [] w = append-nil w
flatten-snoc (x ∷ ws) w = ap (λ r. x ++ r) (flatten-snoc ws w) ∙ sym (append_assoc x (flatten ws) w)

module _ (services : Services) (codec : Codec) (opts : SchedulerOpts) where
  -- How far the ticks have read: the cursor, or where the tick under way ends.
  pub reached : Option Begun → File → ℕ
  reached none file = load_cursor file
  reached (some b) file = b.next

  abbrev pub position : System services codec opts → ℕ
  position s = reached s.begun s.file

  -- `front` was read before; the windows are the newest of each part of the new episodes that were read since.
  pub record HasRead (front : List Fields) (s : System services codec opts) : Type 0 where
    pub read : List Fields
    pub rest : List Fields
    pub rows_so : s.store.rows ≡ (front ++ read) ++ rest
    pub position_so : position s ≡ length (front ++ read)
    pub parts : List (List Episode)
    pub parts_so : flatten parts ≡ new_in read
    pub windows_so : s.windows ≡ map (newest opts.max_episodes) parts
    pub cursor_so : (b : Begun) → s.begun ≡ some b → b.cursor ≡ load_cursor s.file

  pub appended-HasRead :
      (front : List Fields) (s : System services codec opts) (w : Write) (entry : Fields)
      → HasRead front s
      → HasRead front (record s { store = (append codec w entry s.store).0 })
  appended-HasRead front s w entry h = record {
    read = h.read;
    rest = h.rest ++ entry ∷ [];
    rows_so =
        rows-append codec w entry s.store
        ∙ ap (λ r. r ++ entry ∷ []) h.rows_so
        ∙ append_assoc (front ++ h.read) h.rest (entry ∷ []);
    position_so = h.position_so;
    parts = h.parts;
    parts_so = h.parts_so;
    windows_so = h.windows_so;
    cursor_so = h.cursor_so;
  }

  pub idle-position :
      (s : System services codec opts) → s.begun ≡ none → position s ≡ load_cursor s.file
  unfolding reached
  idle-position s idle = rw idle

  module _ (front : List Fields) (s : System services codec opts) (idle : s.begun ≡ none)
      (h : HasRead front s) where
    pub began-parts :
        (parts : List (List Episode)) × (flatten parts ≡ new_in (h.read ++ h.rest))
        × ((after_begin services codec opts s).windows ≡ map (newest opts.max_episodes) parts)
    unfolding after_begin begin_tick
    began-parts =
        let seen : (since (pos (load_cursor s.file)) s.store).0 ≡ h.rest =
          rw (sym (idle-position s idle) ∙ h.position_so)
            (since-tail (front ++ h.read) h.rest s.store h.rows_so) in
        (
          h.parts ++ new_in h.rest ∷ [],
          rw (flatten-snoc, h.parts_so, new_in-append),
          rw (seen, h.windows_so, cap_episodes-newest, map-append),
        )

    pub began-HasRead : HasRead front (after_begin services codec opts s)
    unfolding after_begin begin_tick reached
    began-HasRead =
        let (parts, parts_so, windows_so) = began-parts in
        record {
          read = h.read ++ h.rest;
          rest = [];
          rows_so = h.rows_so ∙ append_assoc front h.read h.rest ∙ sym (append-nil _);
          position_so = unfold since in ap length (h.rows_so ∙ append_assoc front h.read h.rest);
          parts = parts;
          parts_so = parts_so;
          windows_so = windows_so;
          cursor_so = λ b e. ground arith;
        }

  end_tick-file :
      (w : Write) (b : Begun) (s : Store) (file : File) (world : services.World)
      → b.cursor ≡ load_cursor file
      → b.next ≤ max_int
      → load_cursor (end_tick services codec opts w wrote b s file world).1 ≡ b.next
  unfolding end_tick
  end_tick-file w b s file world same fits =
      let p = run_window services codec w s b.cursor b.next opts.max_chars b.window world in
      let moved =
        run_window-next services codec w s b.cursor b.next opts.max_chars b.window world in
      elim (Bool-cases (p.next == b.cursor)) [
        | inl e ↦ rw e (sym same ∙ sym ((==_iff p.next b.cursor).0 e) ∙ moved)
        | inr e ↦ rw (e, moved) (load_cursor-save_cursor b.next file fits)
      ]

  pub end_tick-rows :
      (w : Write) (b : Begun) (s : Store) (file : File) (world : services.World)
      → (more : List Fields) × ((end_tick services codec opts w wrote b s file world).0.store.rows
          ≡ s.rows ++ more)
  unfolding end_tick
  end_tick-rows w b s file world =
      elim (run_window-rows services codec w s b.cursor b.next opts.max_chars b.window world) [
        | inl e ↦ ([], ap (λ (t : Store). t.rows) e ∙ sym (append-nil s.rows))
        | inr e ↦ (_, e)
      ]

  pub ended-HasRead :
      (front : List Fields) (s : System services codec opts) (w : Write) (b : Begun)
      → s.begun ≡ some b
      → length s.store.rows ≤ max_int
      → HasRead front s
      → HasRead front (after_end services codec opts w wrote b s)
  unfolding after_end reached
  ended-HasRead front s w b going fits h =
      let (more, added) = end_tick-rows w b s.store s.file s.world in
      let at : b.next ≡ length (front ++ h.read) = rw going at h.position_so in
      record {
        read = h.read;
        rest = h.rest ++ more;
        rows_so =
            added ∙ ap (λ r. r ++ more) h.rows_so ∙ append_assoc (front ++ h.read) h.rest more;
        position_so =
            end_tick-file w b s.store s.file s.world (h.cursor_so b going)
              (omega (arith, at, ap length h.rows_so, length-append (front ++ h.read) h.rest))
            ∙ at;
        parts = h.parts;
        parts_so = h.parts_so;
        windows_so = h.windows_so;
        cursor_so = λ b e. cc;
      }
