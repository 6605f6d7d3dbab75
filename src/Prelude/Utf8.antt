-- ===== src/Prelude/Utf8.antt =====
-- `strings.ToValidUTF8(s, "")`: drops every byte that is not part of a valid UTF-8 sequence.
use cofiswarm_dispatch.Prelude.Tests.{◌==◌, leb, ltb, if◌then◌else◌}
use cofiswarm_dispatch.Prelude.Lists.{length, All}
use cofiswarm_dispatch.Prelude.Strings.{Text}
use Prim.Native.Nat.{ℕ, zero, suc, ◌-◌, ◌≤◌, ◌<◌}
use mathlib.Core.Path.{◌≡◌, refl}
use mathlib.Core.Bool.{Bool, true, false, ◌&&◌}
use mathlib.Core.List.{[], ◌∷◌}
use native.Mathlib.Omega.{arith}

-- A byte lies in a range.
within : ℕ → ℕ → ℕ → Bool
within lo hi c = leb lo c && leb c hi

-- The first `n` bytes are continuation bytes.
tail_ok : ℕ → Text → Bool
unfolding within
tail_ok zero s = true
tail_ok (suc n) [] = false
tail_ok (suc n) (c ∷ s) = within 0x80 0xBF c && tail_ok n s

-- The first byte lies in a range, and `n` continuation bytes follow it.
head_ok : ℕ → ℕ → ℕ → Text → Bool
unfolding within tail_ok
head_ok lo hi n [] = false
head_ok lo hi n (c ∷ s) = within lo hi c && tail_ok n s

abbrev width_if : Bool → ℕ → ℕ
width_if true w = w
width_if false w = 0

-- The width of the rune that starts with byte `b`, before `s`; 0 if there is none (`utf8.DecodeRune`).
unfoldable pub rune_width : ℕ → Text → ℕ
unfolding within tail_ok head_ok
rune_width b s =
    if ltb b 0x80
    then 1
    else if within 0xC2 0xDF b
    then width_if (head_ok 0x80 0xBF 0 s) 2
    else if b == 0xE0
    then width_if (head_ok 0xA0 0xBF 1 s) 3
    else if b == 0xED
    then width_if (head_ok 0x80 0x9F 1 s) 3
    else if within 0xE1 0xEF b
    then width_if (head_ok 0x80 0xBF 1 s) 3
    else if b == 0xF0
    then width_if (head_ok 0x90 0xBF 2 s) 4
    else if within 0xF1 0xF3 b
    then width_if (head_ok 0x80 0xBF 2 s) 4
    else if b == 0xF4
    then width_if (head_ok 0x80 0x8F 2 s) 4
    else 0

-- The first argument counts the bytes of a rune that are still to be copied.
unfoldable pub valid_from : ℕ → Text → Text
valid_from k [] = []
valid_from (suc k) (b ∷ s) = b ∷ valid_from k s
valid_from zero (b ∷ s) =
    let w = rune_width b s in
    let rest = valid_from (w - 1) s in elim w [ zero ↦ rest | suc n ↦ b ∷ rest ]

unfoldable pub to_valid_utf8 : Text → Text
unfolding valid_from
to_valid_utf8 s = valid_from 0 s

length-valid_from-le : (k : ℕ) (s : Text) → length (valid_from k s) ≤ length s
unfolding valid_from
length-valid_from-le zero [] = omega arith
length-valid_from-le (suc k) [] = omega arith
length-valid_from-le (suc k) (b ∷ s) = omega (arith, length-valid_from-le k s)
length-valid_from-le zero (b ∷ s) = ground (arith, length-valid_from-le (rune_width b s - 1) s)

pub length-to_valid_utf8-le : (s : Text) → length (to_valid_utf8 s) ≤ length s
unfolding to_valid_utf8
length-to_valid_utf8-le s = length-valid_from-le 0 s

abbrev pub IsAscii : Text → Type 0
IsAscii = All (λ c. c < 0x80)

rune_width_ascii : (b : ℕ) (s : Text) → b < 0x80 → rune_width b s ≡ 1
unfolding rune_width
rune_width_ascii b s h = ground arith

-- ASCII text has no byte to drop.
pub to_valid_utf8-IsAscii : (s : Text) → IsAscii s → to_valid_utf8 s ≡ s
unfolding to_valid_utf8
to_valid_utf8-IsAscii [] h = refl
to_valid_utf8-IsAscii (b ∷ s) h = ground (arith, rune_width_ascii b s, to_valid_utf8-IsAscii s h.1)
