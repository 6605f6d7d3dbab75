-- ===== src/Session/Context/Budget.antt =====
-- The continuation prompt on budgets of either sign.
use cofiswarm_dispatch.Prelude.{
  ℕ, ◌+◌, ◌-◌, ◌/◌, Text, Bool, true, false, Option, none, some, length, ltb, leb, ◌>>=◌, ◌≡◌, ◌↔◌,
  ◌⊎◌, refl, Bool-cases, Option-cases, inl, inr, arith,
}
use cofiswarm_dispatch.Prelude.Decimal.{ℤ, pos, negsuc}
use cofiswarm_dispatch.Prelude.Float.{Float64}
use cofiswarm_dispatch.Json.{Fields, lookup, as_text}
use cofiswarm_dispatch.Session.Context.{
  Draft, resolve_char_budget, quot, minus, exceeds, trim_block_at, latest_run, add_trimmed,
  add_target, add_agents,
}
use cofiswarm_dispatch.Session.Context.Prompt.{
  followup_budget, context_sections, with_followup, fit_budget, build_from, build_continuation,
}

-- The chain goes on.
abbrev pub Goes : {A : Type 0} → Option A → Type 0
Goes {A} o = (a : A) × (o ≡ some a)

Goes->>= :
    {A : Type 0} {B : Type 0} (m : Option A) (f : A → Option B)
    → Goes m
    → ((a : A) → Goes (f a))
    → Goes (m >>= f)
Goes->>= m f (a, e) h = rw e (h a)

add_trimmed-Goes :
    (on : Bool) (title body : Text) (n k : ℕ) (d : Draft)
    → Goes (add_trimmed on title body (quot (pos n) k) d)
unfolding add_trimmed quot trim_block_at
add_trimmed-Goes true title body n k d = (_, refl)
add_trimmed-Goes false title body n k d = (d, refl)

add_target-Goes :
    (policy : Fields) (target : Text) (n : ℕ) (agents : Fields) (d : Draft)
    → Goes (add_target policy target (pos n) agents d)
unfolding add_target
add_target-Goes policy target n agents d = elim (Option-cases (as_text (lookup target agents))) [
  | inl e ↦ rw (e, add_target) (d, refl)
  | inr (answer, e) ↦ rw (e, add_target) (add_trimmed-Goes _ _ answer n 2 d)
]

add_agents-Goes :
    (policy : Fields) (target : Text) (n : ℕ) (agents : Option Fields) (d : Draft)
    → Goes (add_agents policy target (pos n) agents d)
unfolding add_agents
add_agents-Goes policy target n none d = (d, refl)
add_agents-Goes policy target n (some agents) d =
    let (d', e) = add_target-Goes policy target n agents d in rw e (_, refl)

pub context_sections-Goes :
    (doc : Fields) (session_id : Text) (policy prev : Fields) (target : Text) (n : ℕ)
    → Goes (context_sections doc session_id policy prev target (pos n))
unfolding context_sections
context_sections-Goes doc session_id policy prev target n =
    Goes->>= _ _ (add_trimmed-Goes _ _ _ n 3 _) (λ d1.
      Goes->>= _ _ (add_trimmed-Goes _ _ _ n 5 d1) (λ d2.
        Goes->>= _ _ (add_trimmed-Goes _ _ _ n 4 d2) (λ d3. add_agents-Goes policy target n _ d3)))

pub fit_budget-Goes : (n : ℕ) (followup : Text) (d : Draft) → Goes (fit_budget (pos n) followup d)
unfolding fit_budget followup_budget trim_block_at minus quot exceeds
fit_budget-Goes n followup d = elim (Bool-cases (ltb n (length d.built))) [
  | inr e ↦ rw e (d, refl)
  | inl e ↦ elim (Bool-cases (ltb (length followup) (n / 4))) [
    | inl f ↦ let g : leb (length followup) n ≡ true = ground arith in rw (e, f, g) (_, refl)
    | inr f ↦ let g : leb (n / 4) n ≡ true = ground arith in rw (e, f, g) (_, refl)
  ]
]

fit_budget-negsuc : (n : ℕ) (followup : Text) (d : Draft) → fit_budget (negsuc n) followup d ≡ none
unfolding fit_budget followup_budget trim_block_at minus quot exceeds
fit_budget-negsuc n followup d = elim (Bool-cases (leb ((n + 1) / 4) 0)) [
  | inl e ↦ let g : ltb (length followup) 0 ≡ false = ground arith in rw (e, g) refl
  | inr e ↦ let g : leb n ((n + 1) / 4 - 1) ≡ false = ground arith in rw (e, g) refl
]

none->>= :
    {A : Type 0} {B : Type 0} (m : Option A) (f : A → Option B)
    → ((a : A) → f a ≡ none)
    → (m >>= f) ≡ none
none->>= none f h = refl
none->>= (some a) f h = h a

>>=-none : {A : Type 0} {B : Type 0} (m : Option A) (f : A → Option B) → m ≡ none → (m >>= f) ≡ none
>>=-none m f e = rw e refl

module _ (to_int : Float64 → ℤ) where
  build_from-Goes :
      (doc : Fields) (session_id followup : Text) (policy prev : Fields) (n : ℕ)
      → (resolve_char_budget to_int policy).0 ≡ pos n
      → Goes (build_from to_int doc session_id followup policy prev)
  unfolding build_from
  build_from-Goes doc session_id followup policy prev n e = rw e (
      Goes->>= _ _ (context_sections-Goes doc session_id policy prev _ n) (λ d.
        Goes->>= _ _ (fit_budget-Goes n followup (with_followup followup d)) (λ d'. (_, refl))))

  build_from-negsuc :
      (doc : Fields) (session_id followup : Text) (policy prev : Fields) (n : ℕ)
      → (resolve_char_budget to_int policy).0 ≡ negsuc n
      → build_from to_int doc session_id followup policy prev ≡ none
  unfolding build_from
  build_from-negsuc doc session_id followup policy prev n e =
      rw e
        (none->>= _ _ (λ d. >>=-none _ _ (fit_budget-negsuc n followup (with_followup followup d))))

  ℤ-cases : (k : ℤ) → ((n : ℕ) × (k ≡ pos n)) ⊎ ((n : ℕ) × (k ≡ negsuc n))
  ℤ-cases (pos n) = inl (n, refl)
  ℤ-cases (negsuc n) = inr (n, refl)

  -- For a session with a latest run: building the continuation prompt panics exactly when the policy
  -- resolves to a negative budget of bytes; on every other budget it gives a prompt.
  pub build_continuation-none :
      (doc : Fields) (session_id followup : Text) (policy prev : Fields)
      → latest_run doc session_id ≡ some prev
      → (build_continuation to_int doc session_id followup policy ≡ none)
        ↔ ((n : ℕ) × ((resolve_char_budget to_int policy).0 ≡ negsuc n))
  unfolding build_continuation
  build_continuation-none doc session_id followup policy prev latest =
      rw (latest, build_continuation)
        (
          λ fails. elim (ℤ-cases (resolve_char_budget to_int policy).0) [
            | inl (n, e) ↦
                let (c, goes) = build_from-Goes doc session_id followup policy prev n e in
                absurd (cc)
            | inr negative ↦ negative
          ],
          λ (n, e). build_from-negsuc doc session_id followup policy prev n e,
        )
