-- ===== src/Prelude/Maps.antt =====
-- A Go map from strings as an association list with one entry for each key.
use cofiswarm_dispatch.Prelude.Tests.{if◌then◌else◌}
use cofiswarm_dispatch.Prelude.Strings.{Text, text_eq, text_eq_iff}
use mathlib.Core.Path.{◌≡◌, refl}
use mathlib.Core.Option.{Option, none, some}
use mathlib.Core.List.{List, [], ◌∷◌}
use native.Mathlib.Omega.{arith}

module _ {ℓ} {V : Type ℓ} where
  -- `m[k] = v`.
  abbrev pub put : Text → V → List (Text × V) → List (Text × V)
  put k v [] = (k, v) ∷ []
  put k v ((j, w) ∷ m) = if text_eq j k then (k, v) ∷ m else (j, w) ∷ put k v m

  -- `v, ok := m[k]`.
  abbrev pub get : Text → List (Text × V) → Option V
  get k [] = none
  get k ((j, v) ∷ m) = if text_eq j k then some v else get k m

  pub get-put :
      (k j : Text) (v : V) (m : List (Text × V))
      → get j (put k v m) ≡ (if text_eq k j then some v else get j m)
  get-put k j v [] = refl
  get-put k j v ((i, w) ∷ m) =
      ground (arith, get-put k j v m, text_eq_iff i k, text_eq_iff k j, text_eq_iff i j)

-- Reading a missing key of a map of strings gives the empty one.
abbrev pub or_empty : Option Text → Text
or_empty none = []
or_empty (some s) = s
