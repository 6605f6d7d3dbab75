-- ===== src/Httpapi/Architect/Answer.antt =====
-- What the run of an answered dispatch holds.
use cofiswarm_dispatch.Prelude.{Text, codes, text_eq, Option, none, some, ◌≡◌, refl}
use cofiswarm_dispatch.Json.{Value, text, Fields, lookup, as_text}
use cofiswarm_dispatch.Prepare.{Request, bool_value}
use cofiswarm_dispatch.Httpapi.{Moment}
use cofiswarm_dispatch.Httpapi.Architect.{answered_run, text_or, value_or_null}

-- What a run says of its request.
abbrev pub HasRequest : Request → (mode eff_prompt : Text) → Fields → Type 0
HasRequest req mode eff_prompt run =
    (lookup (codes "run_id") run ≡ some (text req.run_id))
    × (lookup (codes "prompt") run ≡ some (text req.prompt))
    × (lookup (codes "effective_prompt") run ≡ some (text eff_prompt))
    × (lookup (codes "followup") run ≡ some (bool_value req.followup))
    × (lookup (codes "mode") run ≡ some (text mode))

-- The final answer of an envelope, or the prompt where it has no text.
abbrev pub IsFinal : (eff_prompt : Text) → Option Value → Text → Type 0
IsFinal eff_prompt (some (text t)) final = final ≡ t
IsFinal eff_prompt _ final = final ≡ eff_prompt

-- What a run says of the envelope: its final answer and its agents.
abbrev pub HasAnswer : (eff_prompt : Text) → (envelope : Fields) → Fields → Type 0
HasAnswer eff_prompt envelope run =
    (final : Text) × IsFinal eff_prompt (lookup (codes "final") envelope) final
    × (lookup (codes "final") run ≡ some (text final))
    × ((agents : Value)
        → lookup (codes "agents") envelope ≡ some agents
        → lookup (codes "agents") run ≡ some agents)

text_or-IsFinal :
    (eff_prompt : Text) (v : Option Value) → IsFinal eff_prompt v (text_or (as_text v) eff_prompt)
unfolding text_or
text_or-IsFinal eff_prompt none = refl
text_or-IsFinal eff_prompt (some (text t)) = refl
text_or-IsFinal eff_prompt (some _) = refl

pub answered_run-HasAnswer :
    (moment : Moment) (req : Request) (mode eff_prompt : Text) (envelope : Fields)
    → HasAnswer eff_prompt envelope (answered_run moment req mode eff_prompt envelope)
unfolding answered_run lookup text_eq value_or_null
answered_run-HasAnswer moment req mode eff_prompt envelope = (
  text_or (as_text (lookup (codes "final") envelope)) eff_prompt,
  text_or-IsFinal eff_prompt (lookup (codes "final") envelope),
  refl,
  λ agents e. rw e refl,
)

pub answered_run-HasRequest :
    (moment : Moment) (req : Request) (mode eff_prompt : Text) (envelope : Fields)
    → HasRequest req mode eff_prompt (answered_run moment req mode eff_prompt envelope)
unfolding answered_run lookup text_eq
answered_run-HasRequest moment req mode eff_prompt envelope = (refl, refl, refl, refl, refl)
