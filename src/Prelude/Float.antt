-- ===== src/Prelude/Float.antt =====
-- `float64` values as their IEEE 754 bits. The order is read off the bits; the operations that round
-- are parameters of the code that uses them.
use cofiswarm_dispatch.Prelude.Tests.{ltb, leb, if◌then◌else◌}
use Prim.Native.Nat.{ℕ, ◌%◌, ◌^◌, ◌+◌}
use mathlib.Core.Bool.{Bool, false, not, ◌&&◌, ◌||◌}

pub record Float64 : Type 0 where
  pub bits : ℕ

abbrev pub float_of_bits : ℕ → Float64
float_of_bits n = record { bits = n }

unfoldable pub magnitude : Float64 → ℕ
magnitude x = x.bits % 2 ^ 63

unfoldable pub is_negative : Float64 → Bool
is_negative x = leb (2 ^ 63) x.bits

unfoldable pub is_nan : Float64 → Bool
unfolding magnitude
is_nan x = ltb 0x7FF0000000000000 (magnitude x)

-- `x < y`, `x <= y` and `x == y` of the language: false if either is not a number; the zeros are equal.
unfoldable pub float_lt : Float64 → Float64 → Bool
unfolding magnitude is_negative is_nan
float_lt x y =
    if is_nan x || is_nan y
    then false
    else if is_negative x
    then (if is_negative y
        then ltb (magnitude y) (magnitude x)
        else ltb 0 (magnitude x + magnitude y))
    else if is_negative y
    then false
    else ltb (magnitude x) (magnitude y)

unfoldable pub float_le : Float64 → Float64 → Bool
unfolding float_lt is_nan
float_le x y = not (is_nan x || is_nan y) && not (float_lt y x)

-- Arithmetic with rounding, as the hardware does it.
pub record FloatOps : Type 0 where
  pub add : Float64 → Float64 → Float64
  pub mul : Float64 → Float64 → Float64
  pub div : Float64 → Float64 → Float64
  pub of_nat : ℕ → Float64

abbrev pub zero_float : Float64
zero_float = float_of_bits 0
