-- ===== src/Json.antt =====
-- The documents that the stores keep: what `encoding/json` decodes into `map[string]any`, and the Go
-- values that the code puts there itself. A JSON number arrives as a `float64`.
use cofiswarm_dispatch.Prelude.{
  or_empty, Text, text_eq, Option, none, some, List, [], ◌∷◌, if◌then◌else◌,
}
use cofiswarm_dispatch.Prelude.Decimal.{ℤ}
use cofiswarm_dispatch.Prelude.Float.{Float64}

mutual
  pub data Value : Type 0 where
    null yes_value no_value : Value
    int : ℤ → Value
    float : Float64 → Value
    text : Text → Value
    array : Items → Value
    object : Fields → Value

  pub data Items : Type 0 where
    nil : Items
    cons : Value → Items → Items

  -- A map, one entry for each key.
  pub data Fields : Type 0 where
    end : Fields
    field : Text → Value → Fields → Fields

-- `m[k]`.
unfoldable pub lookup : Text → Fields → Option Value
lookup k end = none
lookup k (field j v m) = if text_eq j k then some v else lookup k m

-- `m[k] = v`.
unfoldable pub insert : Text → Value → Fields → Fields
insert k v end = field k v end
insert k v (field j w m) = if text_eq j k then field k v m else field j w (insert k v m)

-- `v, ok := x.(string)`.
abbrev pub as_text : Option Value → Option Text
as_text (some (text s)) = some s
as_text _ = none

-- `v, ok := x.(map[string]any)`.
abbrev pub as_object : Option Value → Option Fields
as_object (some (object m)) = some m
as_object _ = none

-- `str` of internal/history/episode.go, `jsonString` of internal/session/text.go: the string under a
-- key, or the empty one.
unfoldable pub json_string : Fields → Text → Text
unfolding lookup
json_string m key = or_empty (as_text (lookup key m))

-- The entries that hold a string.
unfoldable pub strings_of : Fields → List (Text × Text)
strings_of end = []
strings_of (field k (text s) m) = (k, s) ∷ strings_of m
strings_of (field k v m) = strings_of m
