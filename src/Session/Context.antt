-- ===== src/Session/Context.antt =====
-- internal/session/context.go, and from text.go and tokens.go there what only it uses: the continuation
-- prompt of a session. A budget comes from the client and may be negative; `none` is the panic of a slice
-- with a negative bound. The conversion of a `float64` to an `int` is a parameter.
pub mod Prompt
pub mod Budget
pub mod Followup
pub mod Tests
use cofiswarm_dispatch.Prelude.{
  ℕ, zero, suc, ◌+◌, ◌-◌, ◌*◌, ◌/◌, Text, codes, text_eq, is_empty, Bool, true, false, not, ◌&&◌,
  ◌||◌, Option, none, some, List, [], ◌∷◌, ◌++◌, length, ltb, leb, if◌then◌else◌, ◌>>=◌,
}
use cofiswarm_dispatch.Prelude.Decimal.{ℤ, pos, negsuc, wrap}
use cofiswarm_dispatch.Prelude.Float.{Float64}
use cofiswarm_dispatch.Prelude.Sort.{sort_texts}
use cofiswarm_dispatch.Json.{
  Value, yes_value, no_value, int, float, text, array, object, Fields, end, field, lookup, as_text,
  as_object, json_string,
}
use cofiswarm_dispatch.Session.{estimate_tokens, trim_block, first_lines, values_of, as_values}

pub record Continuation : Type 0 where
  pub prompt : Text
  pub compaction : Fields

names_it : Text → List Value → Bool
names_it name [] = false
names_it name (text s ∷ vs) = text_eq s name || names_it name vs
names_it name (v ∷ vs) = names_it name vs

listed : Text → Option Value → Bool
unfolding names_it
listed name (some (array vs)) = names_it name (values_of vs)
listed name _ = true

-- Whether a section is on: it is, where the policy has no list.
unfoldable pub include_name : Fields → Text → Bool
unfolding listed
include_name policy name = listed name (lookup (codes "include") policy)

int_or : (Float64 → ℤ) → ℤ → Option Value → ℤ
int_or to_int def (some (float x)) = to_int x
int_or to_int def (some (int n)) = n
int_or to_int def _ = def

unfoldable pub policy_int : (Float64 → ℤ) → Fields → Text → ℤ → ℤ
unfolding int_or
policy_int to_int policy key def = int_or to_int def (lookup key policy)

unfoldable pub policy_str : Fields → Text → Text → Text
policy_str policy key def = let s = json_string policy key in if is_empty s then def else s

keys_of : Fields → List Text
keys_of end = []
keys_of (field k v m) = k ∷ keys_of m

unfoldable pub sorted_keys : Fields → List Text
unfolding keys_of
sorted_keys m = sort_texts (keys_of m)

-- Four bytes for each token; the product wraps around.
unfoldable pub chars_for_tokens : ℤ → ℤ
chars_for_tokens (pos n) = wrap (n * 4)
chars_for_tokens (negsuc n) = pos 0

abbrev pub is_above_zero : ℤ → Bool
is_above_zero (pos n) = ltb 0 n
is_above_zero (negsuc n) = false

-- The budget in bytes and in tokens; 0 tokens where the bytes were given.
unfoldable pub resolve_char_budget : (Float64 → ℤ) → Fields → ℤ × ℤ
unfolding chars_for_tokens
resolve_char_budget to_int policy =
    let tok = policy_int to_int policy (codes "max_context_tokens") (pos 0) in
    if is_above_zero tok
    then (chars_for_tokens tok, tok)
    else (policy_int to_int policy (codes "max_context_chars") (pos 24000), pos 0)

-- `m / k` and `m - n` of the language.
unfoldable pub quot : ℤ → ℕ → ℤ
quot (pos n) k = pos (n / k)
quot (negsuc n) k = let q = (n + 1) / k in if leb q 0 then pos 0 else negsuc (q - 1)

unfoldable pub minus : ℤ → ℤ → ℤ
minus (pos a) (pos b) = if leb b a then pos (a - b) else negsuc (b - a - 1)
minus (pos a) (negsuc b) = pos (a + b + 1)
minus (negsuc a) (pos b) = negsuc (a + b)
minus (negsuc a) (negsuc b) = if leb a b then pos (b - a) else negsuc (a - b - 1)

-- `n > m`.
unfoldable pub exceeds : ℕ → ℤ → Bool
exceeds n (pos m) = ltb m n
exceeds n (negsuc m) = true

-- `trimBlock`; a negative budget slices out of range, whatever the text is.
unfoldable pub trim_block_at : Text → ℤ → Option Text
trim_block_at s (pos n) = some (trim_block s n)
trim_block_at s (negsuc n) = none

last_run : List Value → Option Fields
last_run [] = none
last_run (object run ∷ []) = some run
last_run (v ∷ []) = none
last_run (v ∷ w ∷ vs) = last_run (w ∷ vs)

-- The runs of a session; none if there is no session.
runs_of : Fields → Text → List Value
runs_of doc session_id = elim (as_object (lookup session_id doc)) [
  | none ↦ []
  | some sess ↦ as_values (lookup (codes "runs") sess)
]

unfoldable pub latest_run : Fields → Text → Option Fields
unfolding last_run runs_of
latest_run doc session_id = last_run (runs_of doc session_id)

first_prompt : List Value → Text
first_prompt (object run ∷ vs) = json_string run (codes "prompt")
first_prompt _ = []

unfoldable pub first_prompt_for_session : Fields → Text → Text
unfolding first_prompt runs_of
first_prompt_for_session doc session_id = first_prompt (runs_of doc session_id)

unfoldable pub session_summary : Fields → Text → Text
session_summary doc session_id = elim (as_object (lookup session_id doc)) [
  | none ↦ []
  | some sess ↦ json_string sess (codes "summary")
]

unfoldable pub append_section : Text → Text → Text → Text
append_section built title body =
    if is_empty body then built else built ++ codes "\n\n## " ++ title ++ codes "\n" ++ body

-- The prompt so far, and whether anything was cut.
pub record Draft : Type 0 where
  pub built : Text
  pub compacted : Bool

-- A section of its own budget, if it is on.
unfoldable pub add_trimmed : Bool → Text → Text → ℤ → Draft → Option Draft
unfolding trim_block_at append_section exceeds
add_trimmed on title body budget d =
    if on
    then (do
      cut ← trim_block_at body budget
      some (record {
        built = append_section d.built title cut;
        compacted = d.compacted || exceeds (length body) budget;
      }))
    else some d

-- One line for each other agent.
unfoldable pub agent_notes : Text → Fields → List Text → Text × Bool
agent_notes target agents [] = ([], false)
agent_notes target agents (k ∷ ks) =
    let (more, cut) = agent_notes target agents ks in
    elim (as_text (lookup k agents)) [
      | none ↦ (more, cut)
      | some v ↦ if text_eq k target then (more, cut) else (
        codes "- " ++ k ++ codes ": " ++ first_lines v 3 900 ++ codes "\n" ++ more,
        ltb 900 (length v) || cut,
      )
    ]

unfoldable pub add_target : Fields → Text → ℤ → Fields → Draft → Option Draft
unfolding include_name add_trimmed quot
add_target policy target max_chars agents d = elim (as_text (lookup target agents)) [
  | none ↦ some d
  | some answer ↦
      add_trimmed (include_name policy target) (codes "Previous " ++ target ++ codes " answer")
        answer (quot max_chars 2) d
]

unfoldable pub add_notes : Text → Fields → Draft → Draft
unfolding agent_notes append_section sorted_keys
add_notes target agents d =
    let (notes, cut) = agent_notes target agents (sorted_keys agents) in
    record {
      built = append_section d.built (codes "Other previous agent notes") notes;
      compacted = d.compacted || cut;
    }

unfoldable pub add_agents : Fields → Text → ℤ → Option Fields → Draft → Option Draft
unfolding add_target add_notes
add_agents policy target max_chars none d = some d
add_agents policy target max_chars (some agents) d = do
  d' ← add_target policy target max_chars agents d
  some (add_notes target agents d')
