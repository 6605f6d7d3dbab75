-- ===== src/Prelude/Decimal.antt =====
-- `strconv.Itoa` and `strconv.Atoi` on numbers that are not negative.
use cofiswarm_dispatch.Prelude.Tests.{◌==◌, leb, ltb, if◌then◌else◌, Bool-cases, ltb→lt}
use cofiswarm_dispatch.Prelude.Lists.{All, take}
use cofiswarm_dispatch.Prelude.Strings.{Text}
use Prim.Native.Nat.{ℕ, zero, suc, ◌+◌, ◌-◌, ◌*◌, ◌/◌, ◌%◌, ◌^◌, ◌≤◌, ◌<◌}
use mathlib.Core.Path.{◌≡◌, refl, ◌∙◌}
use mathlib.Core.Logic.{inl, inr}
use mathlib.Core.Bool.{Bool, ◌&&◌}
use mathlib.Core.Option
use mathlib.Core.Option.{Option, none, some}
use mathlib.Core.List.{[], ◌∷◌}
use native.Mathlib.Omega.{arith}

-- The digits of `n` before `out`. Each round divides by ten, so `suc n` rounds are enough.
emit : ℕ → ℕ → Text → Text
emit zero n out = out
emit (suc fuel) n out =
    let more = emit fuel (n / 10) ((b'0' + n % 10) ∷ out) in
    if ltb n 10 then (b'0' + n) ∷ out else more

unfoldable pub itoa : ℕ → Text
unfolding emit
itoa n = emit (suc n) n []

-- An `int` of the language. `negsuc n` is -(n + 1).
pub data ℤ : Type 0 where
  pos : ℕ → ℤ
  negsuc : ℕ → ℤ

-- The largest `int` on a 64-bit host.
abbrev pub max_int : ℕ
max_int = 2 ^ 63 - 1

-- A natural number as an `int` of 64 bits, which wraps around.
unfoldable pub wrap : ℕ → ℤ
wrap n = let m = n % 2 ^ 64 in if ltb m (2 ^ 63) then pos m else negsuc (2 ^ 64 - 1 - m)

pub wrap_small : (n : ℕ) → n ≤ max_int → wrap n ≡ pos n
unfolding wrap
wrap_small n h = ground arith

unfoldable pub is_digit : ℕ → Bool
is_digit c = leb b'0' c && leb c b'9'

-- Digits read behind the number `n`; a value above `limit` is a range error.
unfoldable pub scan : ℕ → Text → ℕ → Option ℕ
unfolding is_digit
scan limit [] n = if ltb limit n then none else some n
scan limit (c ∷ s) n = if is_digit c then scan limit s (n * 10 + (c - b'0')) else none

-- At least one digit.
digits_of : ℕ → Text → Option ℕ
unfolding scan
digits_of limit [] = none
digits_of limit (c ∷ s) = scan limit (c ∷ s) 0

negate : ℕ → ℤ
negate zero = pos 0
negate (suc n) = negsuc n

-- `strconv.Atoi`; `none` is an error.
unfoldable pub atoi : Text → Option ℤ
unfolding digits_of negate
atoi [] = none
atoi (c ∷ s) =
    if c == b'-'
    then Option.map negate (digits_of (2 ^ 63) s)
    else if c == b'+'
    then Option.map pos (digits_of max_int s)
    else Option.map pos (digits_of max_int (c ∷ s))

-- The first `n` that is left of a number being printed reads as the whole number.
scan_last :
    (limit n : ℕ) (out : Text) → scan limit ((b'0' + n % 10) ∷ out) (n / 10) ≡ scan limit out n
unfolding scan
scan_last limit n out = ground arith

scan_one : (limit n : ℕ) (out : Text) → n < 10 → scan limit ((b'0' + n) ∷ out) 0 ≡ scan limit out n
unfolding scan
scan_one limit n out h = ground arith

scan-emit :
    (limit fuel n : ℕ) (out : Text) → n < fuel → scan limit (emit fuel n out) 0 ≡ scan limit out n
unfolding emit
scan-emit limit zero n out h = absurd (omega arith)
scan-emit limit (suc fuel) n out h = elim (Bool-cases (ltb n 10)) [
  | inl e ↦ rw e (scan_one limit n out (ltb→lt n 10 e))
  | inr e ↦
      rw e (
        scan-emit limit fuel (n / 10) ((b'0' + n % 10) ∷ out) (ground arith)
        ∙ scan_last limit n out)
]

-- A printed number starts with a digit.
emit_head :
    (fuel n : ℕ) (out : Text)
    → n < fuel
    → (d : ℕ) × (rest : Text) × (emit fuel n out ≡ d ∷ rest) × (b'0' ≤ d) × (d ≤ b'9')
unfolding emit
emit_head zero n out h = absurd (omega arith)
emit_head (suc fuel) n out h = elim (Bool-cases (ltb n 10)) [
  | inl e ↦ rw e (b'0' + n, out, refl, omega arith, ground arith)
  | inr e ↦ rw e (emit_head fuel (n / 10) ((b'0' + n % 10) ∷ out) (ground arith))
]

atoi_digit :
    (d : ℕ) (rest : Text) {n : ℕ}
    → b'0' ≤ d
    → d ≤ b'9'
    → scan max_int (d ∷ rest) 0 ≡ some n
    → atoi (d ∷ rest) ≡ some (pos n)
unfolding atoi
atoi_digit d rest lo hi e = ground arith

-- A printed number is read back.
pub atoi-itoa : (n : ℕ) → n ≤ max_int → atoi (itoa n) ≡ some (pos n)
unfolding itoa
atoi-itoa n h =
    let (d, rest, e, lo, hi) = emit_head (suc n) n [] (omega arith) in
    rw e (
      atoi_digit d rest lo hi
        (rw (← e) (scan-emit max_int (suc n) n [] (omega arith) ∙ unfold scan in ground arith)))

pub itoa_head : (n : ℕ) → (d : ℕ) × (rest : Text) × (itoa n ≡ d ∷ rest) × (b'0' ≤ d) × (d ≤ b'9')
unfolding itoa
itoa_head n = emit_head (suc n) n [] (omega arith)

-- A printed number has digits only.
emit-All :
    (fuel n : ℕ) (out : Text)
    → All (λ c. (b'0' ≤ c) × (c ≤ b'9')) out
    → All (λ c. (b'0' ≤ c) × (c ≤ b'9')) (emit fuel n out)
unfolding emit
emit-All zero n out h = h
emit-All (suc fuel) n out h = elim (Bool-cases (ltb n 10)) [
  | inl e ↦ rw e (ground arith, h)
  | inr e ↦ rw e (emit-All fuel (n / 10) ((b'0' + n % 10) ∷ out) (omega arith, h))
]

pub itoa-All : (n : ℕ) → All (λ c. (b'0' ≤ c) × (c ≤ b'9')) (itoa n)
unfolding itoa
itoa-All n = emit-All (suc n) n [] tt

-- Reading on only raises the number that is read, up to the limit.
scan-le : (limit : ℕ) (s : Text) (a v : ℕ) → scan limit s a ≡ some v → (a ≤ v) × (v ≤ limit)
unfolding scan
scan-le limit [] a v e = ground arith
scan-le limit (c ∷ s) a v e = elim (Bool-cases (is_digit c)) [
  | inl d ↦
      let more = scan-le limit s (a * 10 + (c - b'0')) v (ground arith) in
      (omega (arith, more.0), more.1)
  | inr d ↦ ground arith
]

scan-nil : (limit n : ℕ) → n ≤ limit → scan limit [] n ≡ some n
unfolding scan
scan-nil limit n h = ground arith

-- What is read of a number that breaks off is at most the number.
scan-take :
    (limit k : ℕ) (s : Text) (a v : ℕ)
    → scan limit s a ≡ some v
    → (m : ℕ) × (scan limit (take k s) a ≡ some m) × (m ≤ v)
unfolding scan
scan-take limit zero s a v e =
    let (up, within) = scan-le limit s a v e in (a, scan-nil limit a (omega arith), up)
scan-take limit (suc k) [] a v e = (v, e, omega arith)
scan-take limit (suc k) (c ∷ s) a v e = elim (Bool-cases (is_digit c)) [
  | inl d ↦
      let (m, reads, le) = scan-take limit k s (a * 10 + (c - b'0')) v (ground arith) in
      (m, ground arith, le)
  | inr d ↦ absurd (ground arith)
]

-- A printed number whose write breaks off behind its first digit is read as a number that is no larger.
pub atoi-take-itoa :
    (k n : ℕ) → n ≤ max_int → (m : ℕ) × (atoi (take (suc k) (itoa n)) ≡ some (pos m)) × (m ≤ n)
unfolding itoa
atoi-take-itoa k n h =
    let (d, rest, e, lo, hi) = emit_head (suc n) n [] (omega arith) in
    let whole : scan max_int (d ∷ rest) 0 ≡ some n =
      rw (← e) (scan-emit max_int (suc n) n [] (omega arith) ∙ unfold scan in ground arith) in
    let (m, reads, le) = scan-take max_int (suc k) (d ∷ rest) 0 n whole in
    (m, rw e (atoi_digit d (take k rest) lo hi reads), le)
