-- ===== src/Httpapi/Relay/Runs.antt =====
-- What the runs of a stream hold, and where a replayed answer is from.
use cofiswarm_dispatch.Prelude.{
  Text, codes, text_eq, or_empty, is_empty, false, Option, none, some, ◌≡◌, refl,
}
use cofiswarm_dispatch.Prelude.Space.{trim_space}
use cofiswarm_dispatch.Json.{Value, yes_value, text, Fields, lookup, as_text}
use cofiswarm_dispatch.Prepare.{Request}
use cofiswarm_dispatch.Httpapi.{Moment}
use cofiswarm_dispatch.Httpapi.Architect.Answer.{HasRequest}
use cofiswarm_dispatch.Httpapi.Relay.{relayed_run, replayed_run, answer_of}

module _ (moment : Moment) where
  pub relayed_run-HasRequest :
      (req : Request) (mode eff_prompt : Text)
      → HasRequest req mode eff_prompt (relayed_run moment req mode eff_prompt)
        × (lookup (codes "stream") (relayed_run moment req mode eff_prompt) ≡ some yes_value)
  unfolding relayed_run lookup text_eq
  relayed_run-HasRequest req mode eff_prompt = ((refl, refl, refl, refl, refl), refl)

  pub replayed_run-HasRequest :
      (req : Request) (mode eff_prompt agent answer : Text)
      → HasRequest req mode eff_prompt (replayed_run moment req mode eff_prompt agent answer)
        × (lookup (codes "final") (replayed_run moment req mode eff_prompt agent answer)
            ≡ some (text answer))
  unfolding replayed_run lookup text_eq
  replayed_run-HasRequest req mode eff_prompt agent answer = ((refl, refl, refl, refl, refl), refl)

-- An answer that is not empty is an envelope's, trimmed.
final_of :
    (v : Option Value)
    → is_empty (trim_space (or_empty (as_text v))) ≡ false
    → (t : Text) × (v ≡ some (text t)) × (trim_space (or_empty (as_text v)) ≡ trim_space t)
unfolding trim_space
final_of (some (text t)) e = (t, refl, refl)
final_of none e = cc
final_of (some _) e = cc

pub answered :
    (envelope : Option Fields)
    → is_empty (answer_of envelope) ≡ false
    → (m : Fields) × (t : Text) × (envelope ≡ some m)
      × (lookup (codes "final") m ≡ some (text t))
      × (answer_of envelope ≡ trim_space t)
unfolding answer_of
answered none e = cc
answered (some m) e =
    let (t, there, same) = final_of (lookup (codes "final") m) e in (m, t, refl, there, same)
