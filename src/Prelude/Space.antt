-- ===== src/Prelude/Space.antt =====
-- `unicode.IsSpace` on UTF-8 bytes, and the functions of package strings that cut at white space.
use cofiswarm_dispatch.Prelude.Tests.{◌==◌, leb, if◌then◌else◌}
use cofiswarm_dispatch.Prelude.Lists.{All, All-append, length, length-append}
use cofiswarm_dispatch.Prelude.Strings.{Text}
use Prim.Native.Nat.{ℕ, zero, suc, ◌-◌, ◌<◌, ◌≤◌}
use mathlib.Core.Path.{◌≡◌, refl}
use mathlib.Core.Bool.{Bool, ◌&&◌, ◌||◌}
use mathlib.Core.List.{List, [], ◌∷◌, reverse, reverse-append, reverse-reverse}
use native.Mathlib.Omega.{arith}

unfoldable pub is_ascii_space : ℕ → Bool
is_ascii_space c = (leb 9 c && leb c 13) || c == 32

-- The third byte of a space E2 80 xx, such as U+2003 or U+2028.
is_general_space : ℕ → Bool
is_general_space c = (leb 0x80 c && leb c 0x8A) || c == 0xA8 || c == 0xA9 || c == 0xAF

-- A space of three bytes: U+1680, U+2000 to U+200A, U+2028, U+2029, U+202F, U+205F, U+3000.
is_space3 : ℕ → ℕ → ℕ → Bool
unfolding is_general_space
is_space3 a b c =
    (a == 0xE1 && b == 0x9A && c == 0x80)
    || (a == 0xE2 && b == 0x80 && is_general_space c)
    || (a == 0xE2 && b == 0x81 && c == 0x9F)
    || (a == 0xE3 && b == 0x80 && c == 0x80)

-- A space of two bytes: U+0085, U+00A0.
is_space2 : ℕ → ℕ → Bool
is_space2 a b = a == 0xC2 && (b == 0x85 || b == 0xA0)

-- The bytes of the space that a text starts with; 0 if it starts with none.
unfoldable pub space_width : Text → ℕ
unfolding is_ascii_space is_space2 is_space3
space_width [] = 0
space_width (a ∷ []) = if is_ascii_space a then 1 else 0
space_width (a ∷ b ∷ []) = if is_ascii_space a then 1 else if is_space2 a b then 2 else 0
space_width (a ∷ b ∷ c ∷ s) =
    if is_ascii_space a then 1 else if is_space2 a b then 2 else if is_space3 a b c then 3 else 0

-- The same for the space that a text ends with, the text given backwards.
unfoldable pub space_width_back : Text → ℕ
unfolding is_ascii_space is_space2 is_space3
space_width_back [] = 0
space_width_back (a ∷ []) = if is_ascii_space a then 1 else 0
space_width_back (b ∷ a ∷ []) = if is_ascii_space b then 1 else if is_space2 a b then 2 else 0
space_width_back (c ∷ b ∷ a ∷ s) =
    if is_ascii_space c then 1 else if is_space2 b c then 2 else if is_space3 a b c then 3 else 0

module _ (width : Text → ℕ) where
  -- Drops runes while they are spaces; the number counts the bytes of one that are still to be dropped.
  trim_by : ℕ → Text → Text
  trim_by k [] = []
  trim_by (suc k) (b ∷ s) = trim_by k s
  trim_by zero (b ∷ s) =
      let w = width (b ∷ s) in
      let rest = trim_by (w - 1) s in elim w [ zero ↦ b ∷ s | suc n ↦ rest ]

-- `strings.TrimSpace`.
unfoldable pub trim_space : Text → Text
unfolding trim_by
trim_space s = reverse (trim_by space_width_back 0 (reverse (trim_by space_width 0 s)))

-- One word has ended: it is a field unless it is empty.
end_field : Text → List Text → List Text
end_field [] fields = fields
end_field (c ∷ s) fields = (c ∷ s) ∷ fields

-- The current word is kept backwards.
fields_from : ℕ → Text → Text → List Text
unfolding end_field
fields_from k word [] = end_field (reverse word) []
fields_from (suc k) word (b ∷ s) = fields_from k word s
fields_from zero word (b ∷ s) =
    let w = space_width (b ∷ s) in
    let cut = fields_from (w - 1) [] s in
    let grow = fields_from 0 (b ∷ word) s in
    elim w [ zero ↦ grow | suc n ↦ end_field (reverse word) cut ]

-- `strings.Fields`.
unfoldable pub fields : Text → List Text
unfolding fields_from space_width
fields s = fields_from 0 [] s

-- `strings.TrimRight(s, "/")`.
trim_slashes_back : Text → Text
trim_slashes_back [] = []
trim_slashes_back (c ∷ s) = let rest = trim_slashes_back s in if c == b'/' then rest else c ∷ s

unfoldable pub trim_right_slash : Text → Text
unfolding trim_slashes_back
trim_right_slash s = reverse (trim_slashes_back (reverse s))

-- ASCII that is visible: no byte of it is white space.
abbrev pub IsInk : ℕ → Type 0
IsInk c = (32 < c) × (c < 0x80)

space_width-ink : (c : ℕ) (s : Text) → IsInk c → space_width (c ∷ s) ≡ 0
unfolding space_width
space_width-ink c [] h = ground arith
space_width-ink c (b ∷ []) h = ground arith
space_width-ink c (b ∷ a ∷ s) h = ground arith

space_width_back-ink : (c : ℕ) (s : Text) → IsInk c → space_width_back (c ∷ s) ≡ 0
unfolding space_width_back
space_width_back-ink c [] h = ground arith
space_width_back-ink c (b ∷ []) h = ground arith
space_width_back-ink c (b ∷ a ∷ s) h = ground arith

trim_by-ink :
    (width : Text → ℕ) (s : Text)
    → ((c : ℕ) (r : Text) → IsInk c → width (c ∷ r) ≡ 0)
    → All IsInk s
    → trim_by width 0 s ≡ s
unfolding trim_by
trim_by-ink width [] w h = refl
trim_by-ink width (c ∷ s) w h = ground (arith, w c s h.0)

All-reverse : (s : Text) → All IsInk s → All IsInk (reverse s)
All-reverse [] h = tt
All-reverse (c ∷ s) h =
    rw (reverse-append (c ∷ []) s)
      (All-append IsInk (reverse s) (c ∷ []) (All-reverse s h.1) (h.0, tt))

-- `TrimSpace` leaves such text alone.
pub trim_space-ink : (s : Text) → All IsInk s → trim_space s ≡ s
unfolding trim_space
trim_space-ink s h =
    rw
      (
        trim_by-ink space_width s space_width-ink h,
        trim_by-ink space_width_back (reverse s) space_width_back-ink (All-reverse s h),
      )
      (reverse-reverse s)

length-trim_by-le : (width : Text → ℕ) (k : ℕ) (s : Text) → length (trim_by width k s) ≤ length s
unfolding trim_by
length-trim_by-le width k [] = omega arith
length-trim_by-le width (suc k) (b ∷ s) = omega (arith, length-trim_by-le width k s)
length-trim_by-le width zero (b ∷ s) =
    go (width (b ∷ s)) refl (length-trim_by-le width (width (b ∷ s) - 1) s)
  where
    go :
        (w : ℕ)
        → width (b ∷ s) ≡ w
        → length (trim_by width (width (b ∷ s) - 1) s) ≤ length s
        → length (trim_by width 0 (b ∷ s)) ≤ length (b ∷ s)
    go zero e rest = ground arith
    go (suc n) e rest = ground arith

length-reverse : (s : Text) → length (reverse s) ≡ length s
length-reverse [] = refl
length-reverse (c ∷ s) =
    rw (reverse-append (c ∷ []) s)
      (omega (arith, length-append (reverse s) (c ∷ []), length-reverse s))

-- Trimming makes no text longer.
pub length-trim_space-le : (s : Text) → length (trim_space s) ≤ length s
unfolding trim_space
length-trim_space-le s =
    let front = trim_by space_width 0 s in
    omega (
      arith,
      length-reverse (trim_by space_width_back 0 (reverse front)),
      length-trim_by-le space_width_back 0 (reverse front),
      length-reverse front,
      length-trim_by-le space_width 0 s,
    )
