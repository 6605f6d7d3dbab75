-- ===== src/History/Search.antt =====
-- `Search`: the loop against its description.
use cofiswarm_dispatch.Prelude.{
  ℕ, zero, suc, ◌+◌, Text, codes, text_eq, is_empty, Bool, true, false, ◌||◌, List, [], ◌∷◌, ◌++◌,
  append_assoc, append-nil, length, length-append, take, keep, reverse, ltb, ◌≡◌, ◌≤◌, ◌<◌, ◌⊎◌,
  refl, inl, inr, sym, ◌∙◌, arith, Bool-cases, some,
}
use cofiswarm_dispatch.Prelude.Decimal.{ℤ, pos, negsuc}
use cofiswarm_dispatch.Json.{Fields, end, field, lookup}
use mathlib.Core.Bool.{or-true}
use cofiswarm_dispatch.History.{
  Store, matches, any_matches, value_matches, search, search_loop, clamp_limit,
}

-- How many rows a limit stands for.
abbrev pub IsLimit : ℤ → ℕ → Type 0
IsLimit (negsuc k) n = n ≡ 20
IsLimit (pos k) n = ((k ≡ 0) × (n ≡ 20)) ⊎ ((1 ≤ k) × (k ≤ 100) × (n ≡ k)) ⊎ ((100 < k) × (n ≡ 100))

clamp_limit-IsLimit : (limit : ℤ) → IsLimit limit (clamp_limit limit)
unfolding clamp_limit
clamp_limit-IsLimit (negsuc k) = refl
clamp_limit-IsLimit (pos k) = ground arith

module _ (lower : Text → Text) where
  abbrev pub is_hit : Text → Fields → Bool
  is_hit q row = is_empty q || matches lower row q

  -- `room` is what is left of the limit.
  search_loop_lem :
      (limit room : ℕ) (q : Text) (rows out : List Fields)
      → length out + room ≡ limit
      → search_loop lower limit q rows out ≡ out ++ take room (keep (is_hit q) rows)
  unfolding search_loop
  search_loop_lem limit zero q [] out h = sym (append-nil out)
  search_loop_lem limit (suc room) q [] out h = sym (append-nil out)
  search_loop_lem limit zero q (row ∷ rest) out h =
      let full : ltb (length out) limit ≡ false = ground arith in rw (full, append-nil)
  search_loop_lem limit (suc room) q (row ∷ rest) out h =
      let open_ : ltb (length out) limit ≡ true = ground arith in
      elim (Bool-cases (is_hit q row)) [
        | inl hit ↦
            rw (open_, hit)
              (search_loop_lem limit room q rest (out ++ row ∷ [])
                  (omega (arith, length-append out (row ∷ [])))
                ∙ append_assoc out (row ∷ []) (take room (keep (is_hit q) rest)))
        | inr miss ↦ rw (open_, miss) (search_loop_lem limit (suc room) q rest out h)
      ]

  -- `Search` returns the first `n` of the rows that match, newest first, where `n` is the limit if it is from 1
  -- to 100, 100 if it is above, and 20 if it is not positive. `lower` is any lower-casing.
  pub search_lem :
      (q : Text) (limit : ℤ) (s : Store)
      → (n : ℕ) × IsLimit limit n
        × (search lower q limit s ≡ take n (keep (is_hit (lower q)) (reverse s.rows)))
  unfolding search
  search_lem q limit s = (
    clamp_limit limit,
    clamp_limit-IsLimit limit,
    search_loop_lem (clamp_limit limit) (clamp_limit limit) (lower q) (reverse s.rows) []
        (omega arith),
  )

  prompt_matches :
      (q k : Text) (m : Fields)
      → value_matches lower q (lookup k m) ≡ true
      → any_matches lower q m ≡ true
  unfolding any_matches lookup
  prompt_matches q k end h = h
  prompt_matches q k (field j v m) h = elim (Bool-cases (text_eq j k)) [
    | inl e ↦ let at : value_matches lower q (some v) ≡ true = rw e at h in rw at
    | inr e ↦
        let at : value_matches lower q (lookup k m) ≡ true = rw e at h in
        rw (prompt_matches q k m at) (or-true (value_matches lower q (some v)))
  ]

  -- A row matches exactly if one of its strings contains the query: looking at the prompt first
  -- changes nothing.
  pub matches-eq-any_matches :
      (row : Fields) (q : Text) → matches lower row q ≡ any_matches lower q row
  unfolding matches
  matches-eq-any_matches row q =
      elim (Bool-cases (value_matches lower q (lookup (codes "prompt") row))) [
        | inl e ↦ rw (e, prompt_matches q (codes "prompt") row e)
        | inr e ↦ rw e
      ]
