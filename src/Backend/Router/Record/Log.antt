-- ===== src/Backend/Router/Record/Log.antt =====
-- The audit log: the capped log that the code keeps is the end of the log of everything recorded.
use cofiswarm_dispatch.Prelude.{
  ◌-◌, Text, is_empty, List, [], ◌∷◌, ◌++◌, append_assoc, append-nil, length, last_of,
  last_of-append, ltb, if◌then◌else◌, ◌≡◌, refl, ◌∙◌, ap, arith, Bool-cases, inl, inr,
}
use cofiswarm_dispatch.Backend.Router.{Decision, LoggedDecision, Router, init}
use cofiswarm_dispatch.Backend.Router.Record.{cap_log, log_entry, record_decision}

-- A log with no cap.
abbrev pub full_log : List (Text × Decision) → List LoggedDecision
full_log [] = []
full_log ((agent, d) ∷ calls) =
    if is_empty agent then full_log calls else log_entry agent d ∷ full_log calls

-- The calls made one after another.
abbrev pub record_all : List (Text × Decision) → Router → Router
record_all [] r = r
record_all ((agent, d) ∷ calls) r = record_all calls (record_decision agent d r)

cap_log_lem : (log : List LoggedDecision) → cap_log log ≡ last_of 256 log
unfolding cap_log
cap_log_lem log = elim (Bool-cases (ltb 256 (length log))) [
  | inl e ↦ rw e
  | inr e ↦ rw e (let z : length log - 256 ≡ 0 = ground arith in rw z)
]

decision_log-record_decision :
    (agent : Text) (d : Decision) (r : Router)
    → (record_decision agent d r).decision_log ≡ (
        if is_empty agent
        then r.decision_log
        else last_of 256 (r.decision_log ++ log_entry agent d ∷ []))
unfolding record_decision
decision_log-record_decision [] d r = refl
decision_log-record_decision (c ∷ agent) d r =
    cap_log_lem (r.decision_log ++ log_entry (c ∷ agent) d ∷ [])

record_all_log :
    (calls : List (Text × Decision)) (r : Router) (all : List LoggedDecision)
    → r.decision_log ≡ last_of 256 all
    → (record_all calls r).decision_log ≡ last_of 256 (all ++ full_log calls)
record_all_log [] r all e = rw append-nil e
record_all_log (([], d) ∷ calls) r all e =
    record_all_log calls (record_decision [] d r) all (decision_log-record_decision [] d r ∙ e)
record_all_log ((c ∷ agent, d) ∷ calls) r all e =
    let entry = log_entry (c ∷ agent) d in
    let one : (record_decision (c ∷ agent) d r).decision_log ≡ last_of 256 (all ++ entry ∷ []) =
      decision_log-record_decision (c ∷ agent) d r
      ∙ ap (λ l. last_of 256 (l ++ entry ∷ [])) e
      ∙ last_of-append 256 all (entry ∷ []) in
    record_all_log calls (record_decision (c ∷ agent) d r) (all ++ entry ∷ []) one
    ∙ ap (last_of 256) (append_assoc all (entry ∷ []) (full_log calls))

-- After any sequence of `RecordDecision` on a new router, the audit log is the last 256 entries of the
-- sequence of all decisions that were recorded for a named agent, in order.
pub decision_log_last :
    (calls : List (Text × Decision))
    → (record_all calls init).decision_log ≡ last_of 256 (full_log calls)
unfolding init
decision_log_last calls = record_all_log calls init [] refl
