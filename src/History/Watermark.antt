-- ===== src/History/Watermark.antt =====
-- `Since` as an incremental reader of a log that only grows.
use cofiswarm_dispatch.Prelude.{
  ℕ, ◌≤◌, List, [], ◌∷◌, ◌++◌, append_assoc, append-nil, length, length-append, drop, drop-append,
  drop-append_le, ◌≡◌, ap, ◌∙◌, sym, arith,
}
use cofiswarm_dispatch.Prelude.Decimal.{ℤ, pos, negsuc}
use cofiswarm_dispatch.Disk.{Write}
use cofiswarm_dispatch.Json.{Fields}
use cofiswarm_dispatch.History.{Codec, Store, since, append, clamp_cursor}

-- Calls of `Append`, whatever the file system does.
abbrev pub append_all : Codec → List (Write × Fields) → Store → Store
append_all codec [] s = s
append_all codec ((w, entry) ∷ calls) s = append_all codec calls (append codec w entry s).0

abbrev pub entries : List (Write × Fields) → List Fields
entries [] = []
entries ((w, entry) ∷ calls) = entry ∷ entries calls

pub rows-append :
    (codec : Codec) (w : Write) (entry : Fields) (s : Store)
    → (append codec w entry s).0.rows ≡ s.rows ++ entry ∷ []
unfolding append
rows-append codec w entry s = ground arith

pub rows-append_all :
    (codec : Codec) (calls : List (Write × Fields)) (s : Store)
    → (append_all codec calls s).rows ≡ s.rows ++ entries calls
rows-append_all codec [] s = sym (append-nil s.rows)
rows-append_all codec ((w, entry) ∷ calls) s =
    rows-append_all codec calls (append codec w entry s).0
    ∙ ap (λ r. r ++ entries calls) (rows-append codec w entry s)
    ∙ append_assoc s.rows (entry ∷ []) (entries calls)

clamp_cursor-le : (cursor : ℤ) (size : ℕ) → clamp_cursor cursor size ≤ size
unfolding clamp_cursor
clamp_cursor-le (negsuc n) size = omega arith
clamp_cursor-le (pos n) size = ground arith

clamp_cursor_self : (n m : ℕ) → n ≤ m → clamp_cursor (pos n) m ≡ n
unfolding clamp_cursor
clamp_cursor_self n m h = ground arith

-- Rows added behind a log are what `Since` returns from the log's length.
pub since-tail :
    (rows tail : List Fields) (s : Store)
    → s.rows ≡ rows ++ tail
    → (since (pos (length rows)) s).0 ≡ tail
unfolding since
since-tail rows tail s e =
    rw
      (
        e,
        clamp_cursor_self (length rows) (length (rows ++ tail))
            (omega (arith, length-append rows tail)),
      )
      (drop-append rows tail)

-- A reader that passes on the cursor of its last call gets exactly the entries appended in between,
-- whether or not their saves succeeded, and again the length of the log as its next cursor.
pub since-append_all :
    (codec : Codec) (calls : List (Write × Fields)) (cursor : ℤ) (s : Store)
    → since (pos (since cursor s).1) (append_all codec calls s)
      ≡ (entries calls, length (append_all codec calls s).rows)
since-append_all codec calls cursor s =
    let s' = append_all codec calls s in unfold since in λ i. (since_tail_at i, length s'.rows)
  where
    since_tail_at : (since (pos (length s.rows)) (append_all codec calls s)).0 ≡ entries calls
    since_tail_at =
        since-tail s.rows (entries calls) (append_all codec calls s) (rows-append_all codec calls s)

-- From a cursor within the log, `Since` leaves out no entry appended later.
pub since-append_all-le :
    (codec : Codec) (calls : List (Write × Fields)) (n : ℕ) (s : Store)
    → n ≤ length s.rows
    → (since (pos n) (append_all codec calls s)).0 ≡ drop n s.rows ++ entries calls
unfolding since
since-append_all-le codec calls n s h =
    rw
      (
        rows-append_all codec calls s,
        clamp_cursor_self n (length (s.rows ++ entries calls))
            (omega (arith, length-append s.rows (entries calls))),
      )
      (drop-append_le n s.rows (entries calls) h)

clamp_stable :
    (cursor : ℤ) (n m : ℕ) (h : n ≤ m)
    → clamp_cursor (pos (clamp_cursor cursor n)) m ≡ clamp_cursor cursor n
clamp_stable cursor n m h =
    clamp_cursor_self (clamp_cursor cursor n) m (omega (arith, clamp_cursor-le cursor n))

-- Two polls lose and repeat nothing: what the first returned, followed by what the second returns from
-- the first's cursor, is what one poll returns at the end from the first poll's (clamped) start.
pub since_split :
    (codec : Codec) (calls : List (Write × Fields)) (cursor : ℤ) (s : Store)
    → (since cursor s).0 ++ (since (pos (since cursor s).1) (append_all codec calls s)).0
      ≡ (since (pos (clamp_cursor cursor (length s.rows))) (append_all codec calls s)).0
since_split codec calls cursor s = rw since-append_all (
    unfold since in
    rw
      (
        rows-append_all codec calls s,
        clamp_stable cursor (length s.rows) (length (s.rows ++ entries calls))
            (omega (arith, length-append s.rows (entries calls))),
      )
      (sym (
        drop-append_le (clamp_cursor cursor (length s.rows)) s.rows (entries calls)
          (clamp_cursor-le cursor (length s.rows)))))
