-- ===== src/Agent/Strip.antt =====
-- What the clean-up of an answer leaves.
use cofiswarm_dispatch.Prelude.{
  ℕ, Text, has_prefix, contains, true, false, List, [], ◌∷◌, ◌++◌, append_assoc, append-nil, All,
  ◌≡◌, ◌≢◌, refl, sym, arith, Bool-cases, inl, inr,
}
use cofiswarm_dispatch.Agent.{llama_stops, before, strip_all, strip_template_leakage}

-- `s` starts a longer text.
abbrev Extends : Text → Text → Type 0
Extends s t = (r : Text) × (t ≡ s ++ r)

before-Extends : (token s : Text) → Extends (before token s) s
unfolding before
before-Extends token [] = ([], refl)
before-Extends token (c ∷ s) = elim (Bool-cases (has_prefix (c ∷ s) token)) [
  | inl e ↦ rw e (c ∷ s, refl)
  | inr e ↦ let (r, same) = before-Extends token s in rw e (r, ground arith)
]

has_prefix-extends : (p s r : Text) → has_prefix s p ≡ true → has_prefix (s ++ r) p ≡ true
unfolding has_prefix
has_prefix-extends [] s r h = refl
has_prefix-extends (c ∷ p) [] r h = absurd (cc)
has_prefix-extends (c ∷ p) (x ∷ s) r h = ground (arith, has_prefix-extends p s r)

contains-extends : (p s r : Text) → contains s p ≡ true → contains (s ++ r) p ≡ true
unfolding contains
contains-extends p [] [] h = h
contains-extends p [] (x ∷ r) h = rw (has_prefix-extends p [] (x ∷ r) h)
contains-extends p (c ∷ s) r h =
    ground (arith, has_prefix-extends p (c ∷ s) r, contains-extends p s r)

not-contains-Extends : (p s t : Text) → Extends s t → contains t p ≡ false → contains s p ≡ false
not-contains-Extends p s t (r, same) h = elim (Bool-cases (contains s p)) [
  | inl e ↦ ground (arith, contains-extends p s r e)
  | inr e ↦ e
]

not-contains-before : (c : ℕ) (token s : Text) → contains (before (c ∷ token) s) (c ∷ token) ≡ false
unfolding before contains
not-contains-before c token [] = unfold has_prefix in refl
not-contains-before c token (x ∷ s) = elim (Bool-cases (has_prefix (x ∷ s) (c ∷ token))) [
  | inl e ↦ rw e (unfold has_prefix in refl)
  | inr e ↦
      let (r, same) = before-Extends (c ∷ token) s in
      rw e (
        ground (
          arith,
          not-contains-before c token s,
          has_prefix-extends (c ∷ token) (x ∷ before (c ∷ token) s) r,
        ))
]

Extends-trans : (s t u : Text) → Extends s t → Extends t u → Extends s u
Extends-trans s t u (r, e) (q, f) = (r ++ q, rw (f, e) (append_assoc s r q))

strip_all-Extends : (tokens : List Text) (s : Text) → Extends (strip_all tokens s) s
unfolding strip_all
strip_all-Extends [] s = ([], sym (append-nil s))
strip_all-Extends (t ∷ ts) s =
    Extends-trans (strip_all ts (before t s)) (before t s) s (strip_all-Extends ts (before t s))
      (before-Extends t s)

abbrev IsToken : Text → Type 0
IsToken t = t ≢ []

strip_all-lacks :
    (tokens : List Text) (s : Text)
    → All IsToken tokens
    → All (λ t. contains (strip_all tokens s) t ≡ false) tokens
unfolding strip_all
strip_all-lacks [] s h = tt
strip_all-lacks ([] ∷ ts) s h = absurd (h.0 refl)
strip_all-lacks ((c ∷ t) ∷ ts) s h = (
  not-contains-Extends (c ∷ t) (strip_all ts (before (c ∷ t) s)) (before (c ∷ t) s)
      (strip_all-Extends ts (before (c ∷ t) s)) (not-contains-before c t s),
  strip_all-lacks ts (before (c ∷ t) s) h.1,
)

-- A cleaned answer holds none of the template tokens, and it is the beginning of the raw answer.
pub strip_template_leakage_lem :
    (s : Text)
    → All (λ t. contains (strip_template_leakage s) t ≡ false) llama_stops
      × ((r : Text) × (s ≡ strip_template_leakage s ++ r))
unfolding strip_template_leakage
strip_template_leakage_lem s = (
  strip_all-lacks llama_stops s ((cc), ((cc), ((cc), ((cc), ((cc), tt))))),
  strip_all-Extends llama_stops s,
)
