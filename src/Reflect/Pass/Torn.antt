-- ===== src/Reflect/Pass/Torn.antt =====
-- A tick whose write of the cursor fails.
use cofiswarm_dispatch.Prelude.{
  ℕ, ◌≤◌, List, [], ◌∷◌, ◌++◌, take, drop, length, length-append, ◌==◌, ◌≡◌, inl, inr, ap, arith,
  Bool-cases, Text,
}
use cofiswarm_dispatch.Prelude.Decimal.{ℤ, pos, itoa, max_int}
use cofiswarm_dispatch.Disk.{File, missing, unreadable, bytes, Write, failed, write_file}
use cofiswarm_dispatch.Json.{Fields}
use cofiswarm_dispatch.History.{Codec, Store, since}
use cofiswarm_dispatch.History.Watermark.{append_all, entries, rows-append, since-append_all-le}
use cofiswarm_dispatch.Reflect.{Services}
use cofiswarm_dispatch.Reflect.Pass.{tick, pass, load_cursor, save_cursor, summary_entry}
use cofiswarm_dispatch.Reflect.Pass.Cursor.{load_cursor-take}
use cofiswarm_dispatch.Reflect.Pass.Window.{pass-next, tick-store}

-- What a failed write of `b` may leave: the file as it was, no file, one that cannot be read, or the
-- beginning of `b`.
pub data IsLeft (old : File) (b : Text) : File → Type 0 where
  untouched : IsLeft old b old
  removed : IsLeft old b missing
  barred : IsLeft old b unreadable
  short : (k : ℕ) → IsLeft old b (bytes (take k b))

load_cursor-IsLeft :
    (n : ℕ) (old left : File)
    → n ≤ max_int
    → load_cursor old ≤ n
    → IsLeft old (itoa n) left
    → load_cursor left ≤ n
load_cursor-IsLeft n old left fits within untouched = within
load_cursor-IsLeft n old left fits within removed = unfold load_cursor in omega arith
load_cursor-IsLeft n old left fits within barred = unfold load_cursor in omega arith
load_cursor-IsLeft n old left fits within (short k) = load_cursor-take k n fits

module _ (services : Services) (codec : Codec) where
  open services use {World}

  tick-length :
      (w w' : Write) (s : Store) (file : File) (max_episodes max_chars : ℤ) (world : World)
      → length s.rows
        ≤ length (tick services codec w w' s file max_episodes max_chars world).0.store.rows
  tick-length w w' s file max_episodes max_chars world =
      let p = (tick services codec w w' s file max_episodes max_chars world).0 in
      elim (tick-store services codec w w' s file max_episodes max_chars world) [
        | inl e ↦ omega (arith, ap (λ (t : Store). length t.rows) e)
        | inr e ↦ omega (
          arith,
          ap (λ (t : Store). length t.rows) e,
          ap length (rows-append codec w (summary_entry p.result) s),
          length-append s.rows (summary_entry p.result ∷ []),
        )
      ]

  tick-cursor-le :
      (w : Write) (left : File) (s : Store) (file : File) (max_episodes max_chars : ℤ)
      (world : World)
      → length s.rows ≤ max_int
      → load_cursor file ≤ length s.rows
      → IsLeft file
          (itoa (pass services codec w s (load_cursor file) max_episodes max_chars world).next)
          left
      → load_cursor (tick services codec w (failed left) s file max_episodes max_chars world).1
        ≤ length s.rows
  unfolding tick save_cursor write_file
  tick-cursor-le w left s file max_episodes max_chars world fits within l =
      let p = pass services codec w s (load_cursor file) max_episodes max_chars world in
      let moved = pass-next services codec w s (load_cursor file) max_episodes max_chars world in
      elim (Bool-cases (p.next == load_cursor file)) [
        | inl e ↦ rw e within
        | inr e ↦ rw e (load_cursor-IsLeft (length s.rows) file left fits within (rw (← moved) l))
      ]

  -- From a cursor within the log, whose length fits an int: after a tick whose write of the cursor
  -- fails and leaves the file as it was, no file, one that cannot be read, or the beginning of the
  -- number, the cursor reads as no more than the length of the log that the tick found; so whatever is
  -- appended after the tick, `Since` from there returns all of it, behind entries of the log that may be
  -- returned a second time.
  pub tick_torn :
      (w : Write) (left : File) (s : Store) (file : File) (max_episodes max_chars : ℤ)
      (world : World) (calls : List (Write × Fields))
      → length s.rows ≤ max_int
      → load_cursor file ≤ length s.rows
      → IsLeft file
          (itoa (pass services codec w s (load_cursor file) max_episodes max_chars world).next)
          left
      → let t = tick services codec w (failed left) s file max_episodes max_chars world in
        (load_cursor t.1 ≤ length s.rows)
        × ((since (pos (load_cursor t.1)) (append_all codec calls t.0.store)).0
            ≡ drop (load_cursor t.1) t.0.store.rows ++ entries calls)
  tick_torn w left s file max_episodes max_chars world calls fits within l =
      let t = tick services codec w (failed left) s file max_episodes max_chars world in
      let le = tick-cursor-le w left s file max_episodes max_chars world fits within l in
      let grown = tick-length w (failed left) s file max_episodes max_chars world in
      (le, since-append_all-le codec calls (load_cursor t.1) t.0.store (omega arith))
