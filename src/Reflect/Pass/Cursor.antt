-- ===== src/Reflect/Pass/Cursor.antt =====
-- The cursor file.
use cofiswarm_dispatch.Prelude.{ℕ, zero, suc, ◌≤◌, All-map, All-take, take, [], ◌≡◌, refl, arith}
use cofiswarm_dispatch.Prelude.Decimal.{itoa, itoa-All, atoi, atoi-itoa, atoi-take-itoa, max_int}
use cofiswarm_dispatch.Prelude.Space.{trim_space, trim_space-ink, IsInk}
use cofiswarm_dispatch.Disk.{File, bytes, wrote, write_file}
use cofiswarm_dispatch.Reflect.Pass.{load_cursor, save_cursor}

trim_space-itoa : (n : ℕ) → trim_space (itoa n) ≡ itoa n
trim_space-itoa n =
    trim_space-ink (itoa n)
      (All-map (λ c. (b'0' ≤ c) × (c ≤ b'9')) IsInk (itoa n) (λ c h. omega arith) (itoa-All n))

trim_space-take-itoa : (k n : ℕ) → trim_space (take k (itoa n)) ≡ take k (itoa n)
trim_space-take-itoa k n = trim_space-ink (take k (itoa n)) (
    All-map (λ c. (b'0' ≤ c) × (c ≤ b'9')) IsInk (take k (itoa n)) (λ c h. omega arith)
      (All-take (λ c. (b'0' ≤ c) × (c ≤ b'9')) k (itoa n) (itoa-All n)))

-- A cursor that was written is read back, whatever the file held before.
pub load_cursor-save_cursor :
    (n : ℕ) (file : File) → n ≤ max_int → load_cursor (save_cursor wrote n file) ≡ n
unfolding load_cursor save_cursor write_file
load_cursor-save_cursor n file h = rw (trim_space-itoa n, atoi-itoa n h)

load_cursor-nil : load_cursor (bytes []) ≡ 0
unfolding load_cursor atoi trim_space
load_cursor-nil = refl

-- A cursor whose write broke off reads as a number that is no larger, or as 0.
pub load_cursor-take : (k n : ℕ) → n ≤ max_int → load_cursor (bytes (take k (itoa n))) ≤ n
unfolding load_cursor
load_cursor-take zero n h = rw load_cursor-nil (omega arith)
load_cursor-take (suc k) n h =
    let (m, reads, le) = atoi-take-itoa k n h in rw (trim_space-take-itoa (suc k) n, reads) le
