-- ===== src/Session/Context/Prompt.antt =====
-- `BuildContinuation`: the sections of the prompt, and its last cut to the budget.
use cofiswarm_dispatch.Prelude.{
  ℕ, Text, codes, is_empty, Bool, true, false, not, ◌&&◌, Option, none, some, ◌++◌, length, ltb,
  if◌then◌else◌, ◌>>=◌,
}
use cofiswarm_dispatch.Prelude.Decimal.{ℤ, pos, negsuc}
use cofiswarm_dispatch.Prelude.Float.{Float64}
use cofiswarm_dispatch.Json.{
  Value, yes_value, no_value, int, text, Fields, end, field, lookup, insert, as_object, json_string,
}
use cofiswarm_dispatch.Session.{estimate_tokens}
use cofiswarm_dispatch.Session.Context.{
  Continuation, Draft, include_name, policy_str, resolve_char_budget, is_above_zero, quot, minus,
  exceeds, trim_block_at, latest_run, first_prompt_for_session, session_summary, append_section,
  add_trimmed, add_agents,
}

abbrev opening : Text
opening =
    codes "You are continuing an existing Matrix Swarm session. "
    ++ codes "Use the prior context below, then answer the new follow-up. "
    ++ codes "Do not restart from scratch unless the follow-up asks you to.\n"

abbrev pub closing : Text
closing =
    codes
      "\n\nContinue from the previous answer. Add concrete detail and preserve useful prior work."

is_below : ℕ → ℤ → Bool
is_below n (pos m) = ltb n m
is_below n (negsuc m) = false

unfoldable pub followup_budget : ℤ → Text → ℤ
unfolding is_below
followup_budget max_chars followup =
    let budget = quot max_chars 4 in
    if is_below (length followup) budget then pos (length followup) else budget

-- The sections that come before the follow-up.
unfoldable pub context_sections :
    (doc : Fields) → Text → (policy : Fields) → (prev : Fields) → (target : Text) → ℤ → Option Draft
context_sections doc session_id policy prev target max_chars = do
  let start : Draft = record { built = opening; compacted = false }
  let summary = session_summary doc session_id
  with_summary ←
      add_trimmed (include_name policy (codes "summary") && not (is_empty summary))
        (codes "Earlier session summary") summary (quot max_chars 3) start
  with_original ←
      add_trimmed (include_name policy (codes "original_prompt")) (codes "Original user request")
        (first_prompt_for_session doc session_id) (quot max_chars 5) with_summary
  with_final ←
      add_trimmed (include_name policy (codes "final")) (codes "Previous final answer")
        (json_string prev (codes "final")) (quot max_chars 4) with_original
  add_agents policy target max_chars (as_object (lookup (codes "agents") prev)) with_final

unfoldable pub with_followup : Text → Draft → Draft
with_followup followup d = record d {
  built = append_section d.built (codes "User follow-up") followup ++ closing;
}

-- A prompt over the budget is cut, and ends with the follow-up again.
unfoldable pub fit_budget : ℤ → Text → Draft → Option Draft
unfolding followup_budget
fit_budget max_chars followup d =
    let budget = followup_budget max_chars followup in
    if exceeds (length d.built) max_chars
    then (do
      head ← trim_block_at d.built (minus max_chars budget)
      tail ← trim_block_at followup budget
      some (record { built = head ++ codes "\n\n## User follow-up\n" ++ tail; compacted = true }))
    else some d

abbrev bool_value : Bool → Value
bool_value true = yes_value
bool_value false = no_value

compaction_of : (original target : Text) → (max_chars max_tokens : ℤ) → Draft → Fields
compaction_of original target max_chars max_tokens d =
    let m = field (codes "used") (bool_value d.compacted) (
      field (codes "max_context_chars") (int max_chars) (
        field (codes "original_chars") (int (pos (length original))) (
          field (codes "built_chars") (int (pos (length d.built))) (
            field (codes "est_tokens") (int (pos (estimate_tokens d.built)))
              (field (codes "target_agent") (text target) end))))) in
    if is_above_zero max_tokens then insert (codes "max_context_tokens") (int max_tokens) m else m

module _ (to_int : Float64 → ℤ) where
  -- On a session with a latest run.
  unfoldable pub build_from :
      (doc : Fields) → (session_id followup : Text) → (policy prev : Fields) → Option Continuation
  unfolding compaction_of
  build_from doc session_id followup policy prev = do
    let (max_chars, max_tokens) = resolve_char_budget to_int policy
    let target = policy_str policy (codes "target_agent") (codes "programmer")
    sections ← context_sections doc session_id policy prev target max_chars
    d ← fit_budget max_chars followup (with_followup followup sections)
    some (record {
      prompt = d.built;
      compaction =
          compaction_of (first_prompt_for_session doc session_id) target max_chars max_tokens d;
    })

  -- The follow-up itself where there is no latest run.
  unfoldable pub build_continuation :
      (doc : Fields) → (session_id followup : Text) → (policy : Fields) → Option Continuation
  build_continuation doc session_id followup policy = elim (latest_run doc session_id) [
    | none ↦ some (record {
      prompt = followup;
      compaction =
          field (codes "used") no_value
            (field (codes "reason") (text (codes "session_not_found")) end);
    })
    | some prev ↦ build_from doc session_id followup policy prev
  ]
