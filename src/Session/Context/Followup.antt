-- ===== src/Session/Context/Followup.antt =====
-- The continuation prompt keeps the follow-up.
use cofiswarm_dispatch.Prelude.{
  ℕ, ◌-◌, ◌*◌, ◌≤◌, Text, codes, is_empty, true, false, some, [], ◌++◌, length, leb, append_assoc,
  append-nil, ◌≡◌, refl, ap, ◌∙◌, sym, Bool-cases, inl, inr, arith,
}
use cofiswarm_dispatch.Prelude.Decimal.{ℤ, pos}
use cofiswarm_dispatch.Prelude.Float.{Float64}
use cofiswarm_dispatch.Json.{Fields}
use cofiswarm_dispatch.Session.{trim_block}
use cofiswarm_dispatch.Session.Context.{
  Continuation, Draft, resolve_char_budget, quot, minus, exceeds, trim_block_at, latest_run,
  append_section, policy_str,
}
use cofiswarm_dispatch.Session.Context.Budget.{context_sections-Goes, fit_budget-Goes}
use cofiswarm_dispatch.Session.Context.Prompt.{
  closing, followup_budget, with_followup, fit_budget, build_from, build_continuation,
}

abbrev pub heading : Text
heading = codes "\n\n## User follow-up\n"

-- The follow-up stands whole under its heading.
abbrev pub HasFollowup : Text → Text → Type 0
HasFollowup prompt followup =
    (front : Text) × (back : Text) × (prompt ≡ front ++ heading ++ followup ++ back)

with_followup-HasFollowup :
    (followup : Text) (d : Draft)
    → is_empty followup ≡ false
    → HasFollowup (with_followup followup d).built followup
unfolding with_followup append_section
with_followup-HasFollowup followup d h = rw h (
  d.built,
  closing,
  ap (λ front. front ++ followup ++ closing)
      (ap (λ s. s ++ codes "\n") (append_assoc d.built (codes "\n\n## ") (codes "User follow-up"))
        ∙ append_assoc d.built (codes "\n\n## User follow-up") (codes "\n")),
)

followup_budget-fits :
    (n : ℕ) (followup : Text)
    → length followup * 4 ≤ n
    → followup_budget (pos n) followup ≡ pos (length followup)
unfolding followup_budget quot
followup_budget-fits n followup h = ground arith

trim_block-whole : (s : Text) → trim_block s (length s) ≡ s
unfolding trim_block
trim_block-whole s = ground arith

-- A prompt over the budget, cut.
abbrev cut_to : ℕ → Text → Draft → Draft
cut_to n followup d = record {
  built = trim_block d.built (n - length followup) ++ heading ++ followup;
  compacted = true;
}

fit_budget-cut :
    (n : ℕ) (followup : Text) (d : Draft)
    → length followup * 4 ≤ n
    → exceeds (length d.built) (pos n) ≡ true
    → fit_budget (pos n) followup d ≡ some (cut_to n followup d)
unfolding fit_budget trim_block_at minus
fit_budget-cut n followup d fits f =
    let g : leb (length followup) n ≡ true = ground arith in
    rw (f, followup_budget-fits n followup fits, g, trim_block-whole followup) refl

fit_budget-kept :
    (n : ℕ) (followup : Text) (d : Draft)
    → exceeds (length d.built) (pos n) ≡ false
    → fit_budget (pos n) followup d ≡ some d
unfolding fit_budget
fit_budget-kept n followup d f = rw f refl

fit_budget-HasFollowup :
    (n : ℕ) (followup : Text) (d res : Draft)
    → length followup * 4 ≤ n
    → HasFollowup d.built followup
    → fit_budget (pos n) followup d ≡ some res
    → HasFollowup res.built followup
fit_budget-HasFollowup n followup d res fits h e =
    elim (Bool-cases (exceeds (length d.built) (pos n))) [
      | inl f ↦
          let cut = fit_budget-cut n followup d fits f in
          let same : cut_to n followup d ≡ res = cc in
          rw (← same) (
            trim_block d.built (n - length followup),
            [],
            sym (append-nil (trim_block d.built (n - length followup) ++ heading ++ followup)),
          )
      | inr f ↦
          let kept = fit_budget-kept n followup d f in let same : d ≡ res = cc in rw (← same) h
    ]

module _ (to_int : Float64 → ℤ) where
  -- For a session with a latest run, a follow-up that is not empty and a policy that resolves to at least
  -- four bytes of budget for each byte of the follow-up: a prompt is built, and the follow-up stands in it
  -- whole, right under its heading, whether or not the prompt is cut to the budget.
  pub build_continuation-HasFollowup :
      (doc : Fields) (session_id followup : Text) (policy prev : Fields) (n : ℕ)
      → latest_run doc session_id ≡ some prev
      → is_empty followup ≡ false
      → (resolve_char_budget to_int policy).0 ≡ pos n
      → length followup * 4 ≤ n
      → (c : Continuation) × (build_continuation to_int doc session_id followup policy ≡ some c)
        × HasFollowup c.prompt followup
  unfolding build_continuation build_from
  build_continuation-HasFollowup doc session_id followup policy prev n latest given budget fits =
      let target = policy_str policy (codes "target_agent") (codes "programmer") in
      let (d, made) = context_sections-Goes doc session_id policy prev target n in
      let whole = with_followup followup d in
      let (res, fitted) = fit_budget-Goes n followup whole in
      rw (latest, build_continuation, budget, made, fitted)
        (
          _,
          refl,
          fit_budget-HasFollowup n followup whole res fits
              (with_followup-HasFollowup followup d given) fitted,
        )
