-- ===== src/Compat/Models.antt =====
-- The list of models: each that the manifest names, once.
use cofiswarm_dispatch.Prelude.{
  Text, is_empty, text_eq, text_eq_iff, false, not, ◌&&◌, ◌||◌, List, [], ◌∷◌, ◌++◌, ◌≡◌, refl,
  Bool-cases, inl, inr, arith,
}
use cofiswarm_dispatch.Compat.{is_seen, add_models}

-- No entry stands twice, and none is empty.
abbrev pub IsDistinct : List Text → Type 0
IsDistinct [] = Unit
IsDistinct (m ∷ ms) = (is_empty m ≡ false) × (is_seen m ms ≡ false) × IsDistinct ms

text_eq_sym : (s t : Text) → text_eq s t ≡ text_eq t s
text_eq_sym s t = ground (arith, text_eq_iff s t, text_eq_iff t s)

is_seen-append :
    (m n : Text) (ms : List Text) → is_seen m (ms ++ n ∷ []) ≡ (is_seen m ms || text_eq m n)
unfolding is_seen
is_seen-append m n [] = ground arith
is_seen-append m n (x ∷ ms) = ground (arith, is_seen-append m n ms)

append-IsDistinct :
    (n : Text) (ms : List Text)
    → is_empty n ≡ false
    → is_seen n ms ≡ false
    → IsDistinct ms
    → IsDistinct (ms ++ n ∷ [])
unfolding is_seen
append-IsDistinct n [] full new h = (full, refl, tt)
append-IsDistinct n (x ∷ ms) full new h = (
  h.0,
  ground (arith, is_seen-append x n ms, text_eq_sym n x),
  append-IsDistinct n ms full (ground arith) h.2,
)

add_models-IsDistinct :
    (groups models : List Text) → IsDistinct models → IsDistinct (add_models groups models)
unfolding add_models
add_models-IsDistinct [] models h = h
add_models-IsDistinct (m ∷ groups) models h =
    elim (Bool-cases (not (is_empty m) && not (is_seen m models))) [
      | inl e ↦ rw e (
          add_models-IsDistinct groups (models ++ m ∷ [])
            (append-IsDistinct m models (ground arith) (ground arith) h))
      | inr e ↦ rw e (add_models-IsDistinct groups models h)
    ]

is_seen-add_models :
    (m : Text) (groups models : List Text)
    → is_seen m (add_models groups models)
      ≡ (is_seen m models || (not (is_empty m) && is_seen m groups))
unfolding add_models is_seen
is_seen-add_models m [] models = ground arith
is_seen-add_models m (g ∷ groups) models =
    let more = is_seen-append m g models in
    elim (Bool-cases (not (is_empty g) && not (is_seen g models))) [
      | inl e ↦
          let rest = is_seen-add_models m groups (models ++ g ∷ []) in
          rw e (ground (arith, more, rest, text_eq_iff m g))
      | inr e ↦
          let rest = is_seen-add_models m groups models in
          rw e (ground (arith, rest, text_eq_iff m g))
    ]

-- For every manifest: the models that are served are distinct and none is empty, and a text is among them
-- exactly if it is not empty and a server group of the manifest has it.
pub add_models-IsDistinct-is_seen :
    (groups : List Text)
    → IsDistinct (add_models groups [])
      × ((m : Text) → is_seen m (add_models groups []) ≡ (not (is_empty m) && is_seen m groups))
add_models-IsDistinct-is_seen groups =
    (add_models-IsDistinct groups [] tt, λ m. unfold is_seen in is_seen-add_models m groups [])
