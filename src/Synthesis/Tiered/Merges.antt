-- ===== src/Synthesis/Tiered/Merges.antt =====
-- How often the reduction calls the synthesizer, and with what.
use cofiswarm_dispatch.Prelude.{◌+◌, ◌≤◌, Text, Bool, some, List, [], ◌∷◌, ◌++◌, length, All, ◌≡◌}
use cofiswarm_dispatch.Agent.{Agent}
use cofiswarm_dispatch.Synthesis.{Block, effective_max_prompt_chars}
use cofiswarm_dispatch.Synthesis.Tiered.Made.{Extends, Made, AllMade}
use cofiswarm_dispatch.Synthesis.Tiered.{Caller}

-- The same caller, keeping the prompts it is sent and its answers.
abbrev pub recording : Caller → Caller
recording caller = record {
  World = caller.World × List (Text × Text);
  call = λ a prompt w.
      let (answer, w') = caller.call a prompt w.0 in (answer, (w', w.1 ++ (prompt, answer) ∷ []));
}

-- A prompt keeps the synthesizer's budget, but for the marker of a cut.
abbrev pub IsWithin : Text → Agent → Text × Text → Type 0
IsWithin setting synth call = length call.0 ≤ effective_max_prompt_chars setting (some synth) + 46

module _ (caller : Caller) (setting : Text) (synth : Agent) (user_prompt : Text)
    (pipeline_labels : Bool) where
  -- What a loop that has turned `blocks` into `next` has sent: one prompt for each block that is gone.
  record Sent (blocks : List Block) (log : List (Text × Text)) (next : List Block)
      (log' : List (Text × Text)) : Type 0 where
    extends : Extends log log'
    made :
        (end : List (Text × Text))
        → Extends log' end
        → (all : List Block) → AllMade setting synth user_prompt pipeline_labels end all blocks
        → AllMade setting synth user_prompt pipeline_labels end all next
    within : All (IsWithin setting synth) log → All (IsWithin setting synth) log'
    gone : length log' + length next ≡ length log + length blocks
