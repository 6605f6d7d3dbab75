-- ===== src/Synthesis/Tiered.antt =====
-- internal/synthesis/tiered.go: the pairwise reduction. The caller of the synthesizer is a parameter.
pub mod Made
pub mod Merges
use cofiswarm_dispatch.Prelude.{
  ℕ, zero, suc, ◌+◌, Text, codes, text_eq, to_lower, Bool, true, false, ◌||◌, Option, none, some,
  List, [], ◌∷◌, ◌++◌, length, ltb, if◌then◌else◌,
}
use cofiswarm_dispatch.Prelude.Decimal.{itoa}
use cofiswarm_dispatch.Agent.{Agent}
use cofiswarm_dispatch.Synthesis.{Block}
use cofiswarm_dispatch.Synthesis.Fit.{build_pipeline_prompt, build_cascade_prompt}

pub record Caller : Type 1 where
  pub World : Type 0
  pub call : Agent → Text → World → Text × World

-- On COFISWARM_SYNTHESIS_TIERED. No letter outside ASCII has a lower case in these words.
unfoldable pub enabled_via_env : Text → Bool
enabled_via_env setting =
    let s = to_lower setting in
    text_eq s (codes "1")
    || text_eq s (codes "true")
    || text_eq s (codes "yes")
    || text_eq s (codes "on")

unfoldable pub merge_prompt :
    (setting : Text) → Agent → (user_prompt : Text) → List Block → Bool → Text
merge_prompt setting synth user_prompt blk pipeline_labels =
    if pipeline_labels
    then build_pipeline_prompt setting user_prompt blk (some synth)
    else build_cascade_prompt setting user_prompt blk (some synth)

module _ (caller : Caller) (setting : Text) (synth : Agent) (user_prompt : Text)
    (pipeline_labels : Bool) where
  open caller use {World, call}

  merge : List Block → World → Text × World
  merge blk w = call synth (merge_prompt setting synth user_prompt blk pipeline_labels) w

  -- The inner loop, with `n` blocks already in `next`; an odd one out carries forward.
  merge_round : (round n : ℕ) → List Block → World → List Block × World
  unfolding merge
  merge_round round n [] w = ([], w)
  merge_round round n (b ∷ []) w = (b ∷ [], w)
  merge_round round n (a ∷ b ∷ bs) w =
      let (merged, w') = merge (a ∷ b ∷ []) w in
      let (rest, w'') = merge_round round (n + 1) bs w' in
      (
        record { label = codes "merge_r" ++ itoa round ++ codes "_" ++ itoa n; body = merged }
            ∷ rest,
        w'',
      )

  -- The outer loop, after `round` rounds; it is left after 65, whatever remains.
  reduce : (left round : ℕ) → List Block → World → List Block × World
  unfolding merge_round
  reduce zero round blocks w = (blocks, w)
  reduce (suc left) round blocks w =
      let (next, w') = merge_round (round + 1) 0 blocks w in
      let more = reduce left (round + 1) next w' in
      if ltb 1 (length blocks) then more else (blocks, w)

  -- `blocks[0].Body`; `none` is the panic on an empty slice.
  first_body : List Block × World → Option (Text × World)
  first_body ([], w) = none
  first_body (b ∷ bs, w) = some (b.body, w)

  unfoldable pub reduce_pairwise : List Block → World → Option (Text × World)
  unfolding merge reduce first_body
  reduce_pairwise [] w = some ([], w)
  reduce_pairwise (b ∷ []) w = some (merge (b ∷ []) w)
  reduce_pairwise (a ∷ b ∷ bs) w = first_body (reduce 65 0 (a ∷ b ∷ bs) w)
