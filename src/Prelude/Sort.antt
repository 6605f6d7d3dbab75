-- ===== src/Prelude/Sort.antt =====
-- `sort.Strings`, as an insertion sort by the order of bytes.
use cofiswarm_dispatch.Prelude.Tests.{◌==◌, ltb, if◌then◌else◌}
use cofiswarm_dispatch.Prelude.Strings.{Text}
use mathlib.Core.Bool.{Bool, true, false, ◌&&◌, ◌||◌}
use mathlib.Core.List.{List, [], ◌∷◌}

-- `s <= t` on strings.
unfoldable pub text_le : Text → Text → Bool
text_le [] t = true
text_le (x ∷ s) [] = false
text_le (x ∷ s) (y ∷ t) = ltb x y || ((x == y) && text_le s t)

insert_text : Text → List Text → List Text
insert_text s [] = s ∷ []
insert_text s (t ∷ ts) = if text_le s t then s ∷ t ∷ ts else t ∷ insert_text s ts

unfoldable pub sort_texts : List Text → List Text
unfolding insert_text text_le
sort_texts [] = []
sort_texts (s ∷ ts) = insert_text s (sort_texts ts)
