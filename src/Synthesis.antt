-- ===== src/Synthesis.antt =====
-- internal/synthesis/budget.go: the size of the synthesizer's prompt, and the three prompts.
pub mod Fit
pub mod Tiered
pub mod Tests
use cofiswarm_dispatch.Prelude.{
  ℕ, zero, suc, ◌+◌, ◌-◌, ◌*◌, ◌≤◌, Text, codes, is_empty, Bool, true, false, ◌&&◌, Option, none,
  some, List, [], ◌∷◌, ◌++◌, length, take, map, ltb, leb, if◌then◌else◌,
}
use cofiswarm_dispatch.Prelude.Decimal.{itoa, atoi, ℤ, pos, negsuc}
use cofiswarm_dispatch.Prelude.Utf8.{to_valid_utf8}
use cofiswarm_dispatch.Agent.{Agent}

-- "\n\n[…truncated for synthesizer context budget]", U+2026 being three bytes.
unfoldable pub trunc_marker : Text
trunc_marker =
    codes "\n\n[" ++ (0xE2 ∷ 0x80 ∷ 0xA6 ∷ []) ++ codes "truncated for synthesizer context budget]"

pub record Block : Type 0 where
  pub label : Text
  pub body : Text

unfoldable pub clamp : ℕ → ℕ → ℕ → ℕ
clamp v lo hi = if ltb v lo then lo else if ltb hi v then hi else v

-- The environment's cap in tokens, if it is a number in range.
cap_of_env : Option ℤ → Option ℕ
cap_of_env none = none
cap_of_env (some (negsuc n)) = none
cap_of_env (some (pos v)) = if leb 256 v && leb v 262144 then some (v * 4) else none

at_least_one : ℤ → ℕ
at_least_one (negsuc n) = 1
at_least_one (pos n) = if ltb n 1 then 1 else n

-- From the context window of the synthesizer.
cap_of_window : ℤ → ℤ → ℕ
unfolding clamp at_least_one
cap_of_window (negsuc n) max_tokens = 1400 * 4
cap_of_window (pos ctx) max_tokens =
    let mt = at_least_one max_tokens in
    if ltb ctx 512
    then 1400 * 4
    else if leb ctx (mt + 768 + 64)
    then 256 * 4
    else clamp (ctx - mt - 768) 256 262144 * 4

cap_of_agent : Option Agent → ℕ
unfolding cap_of_window
cap_of_agent none = 1400 * 4
cap_of_agent (some a) = cap_of_window a.context_window a.max_tokens

or_cap : Option ℕ → ℕ → ℕ
or_cap none cap = cap
or_cap (some v) cap = v

-- `setting` is COFISWARM_SYNTHESIS_MAX_PROMPT_TOKENS; the empty text is an unset one.
unfoldable pub effective_max_prompt_chars : Text → Option Agent → ℕ
unfolding or_cap cap_of_env cap_of_agent
effective_max_prompt_chars setting synth =
    or_cap (if is_empty setting then none else cap_of_env (atoi setting)) (cap_of_agent synth)

unfoldable pub truncate_note : Text → ℕ → Text
unfolding trunc_marker
truncate_note s max_chars =
    if leb (length s) max_chars
    then s
    else if leb max_chars 80
    then to_valid_utf8 (take max_chars s)
    else to_valid_utf8 (take (max_chars - 1) s) ++ trunc_marker

-- U+2014.
abbrev dash : Text
dash = 0xE2 ∷ 0x80 ∷ 0x94 ∷ []

unfoldable pub pipeline_footer : Text
pipeline_footer =
    codes
      "\n\nProduce ONE consolidated answer that integrates the above contributions. Resolve contradictions, drop redundancy, and keep only the strongest material. Do not enumerate the stages "
    ++ dash
    ++ codes " write the final answer directly."

unfoldable pub cascade_footer : Text
cascade_footer =
    codes
      "\n\nProduce ONE consolidated answer that integrates the above contributions. Resolve contradictions, drop redundancy, and keep only the strongest material. Do not enumerate the responders "
    ++ dash
    ++ codes " write the final answer directly."

unfoldable pub stream_footer : Text
stream_footer =
    codes
      "\n\nProduce ONE consolidated answer that integrates the above contributions. Resolve contradictions, drop redundancy. Write the final answer directly."
