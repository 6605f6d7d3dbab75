-- ===== src/Synthesis/Tiered/Made.antt =====
-- Which blocks a block of the reduction was made of. A log holds the prompts that the synthesizer got, each with its
-- answer.
use cofiswarm_dispatch.Prelude.{
  Text, Bool, List, [], ◌∷◌, ◌++◌, append_assoc, append-nil, sym, ap, subst, ◌∙◌, ◌≡◌,
}
use cofiswarm_dispatch.Agent.{Agent}
use cofiswarm_dispatch.Synthesis.{Block}
use cofiswarm_dispatch.Synthesis.Tiered.{merge_prompt}

abbrev pub Holds : (log : List (Text × Text)) → Text × Text → Type 0
Holds log call =
    (front : List (Text × Text)) × (back : List (Text × Text)) × (log ≡ front ++ call ∷ back)

abbrev pub Extends : (log log' : List (Text × Text)) → Type 0
Extends log log' = (more : List (Text × Text)) × (log' ≡ log ++ more)

pub Extends-trans : (l m n : List (Text × Text)) → Extends l m → Extends m n → Extends l n
Extends-trans l m n (more, e) (more', e') =
    (more ++ more', e' ∙ ap (λ k. k ++ more') e ∙ append_assoc l more more')

pub Extends-Holds :
    (l n : List (Text × Text)) (call : Text × Text) → Extends (l ++ call ∷ []) n → Holds n call
Extends-Holds l n call (more, e) = (l, more, e ∙ append_assoc l (call ∷ []) more)

module _ (setting : Text) (synth : Agent) (user_prompt : Text) (pipeline_labels : Bool) where
  -- A block that was made of these ones, in their order: it is the one there is, or its body is the answer, in the
  -- log, to the prompt that merges two blocks, the first made of the first ones and the second of the rest.
  pub data Made (log : List (Text × Text)) : List Block → Block → Type 0 where
    given : (b : Block) → Made log (b ∷ []) b
    merged :
        {xs ys : List Block} {a b : Block} (out : Block)
        → Made log xs a
        → Made log ys b
        → Holds log (merge_prompt setting synth user_prompt (a ∷ b ∷ []) pipeline_labels, out.body)
        → Made log (xs ++ ys) out

  -- Blocks each made of some of the given ones, which are all used once, in order.
  pub data AllMade (log : List (Text × Text)) : List Block → List Block → Type 0 where
    none_made : AllMade log [] []
    one_made :
        {xs ys : List Block} {b : Block} {bs : List Block}
        → Made log xs b
        → AllMade log ys bs
        → AllMade log (xs ++ ys) (b ∷ bs)

  pub pair_made :
      (log : List (Text × Text)) (a b out : Block) (bs next all : List Block)
      → Holds log (merge_prompt setting synth user_prompt (a ∷ b ∷ []) pipeline_labels, out.body)
      → ((zs : List Block) → AllMade log zs bs → AllMade log zs next)
      → AllMade log all (a ∷ b ∷ bs)
      → AllMade log all (out ∷ next)
  pair_made log a b out bs next all holds more
        (one_made {xs = xs} ma (one_made {xs = ys} {ys = zs} mb rest)) =
      subst (λ l. AllMade log l (out ∷ next)) (append_assoc xs ys zs)
        (one_made (merged out ma mb holds) (more zs rest))

  pub all_given : (log : List (Text × Text)) (blocks : List Block) → AllMade log blocks blocks
  all_given log [] = none_made
  all_given log (b ∷ bs) = one_made (given b) (all_given log bs)

  pub only-Made :
      (log : List (Text × Text)) (all : List Block) (b : Block)
      → AllMade log all (b ∷ [])
      → Made log all b
  only-Made log all b (one_made {xs} m none_made) =
      subst (λ l. Made log l b) (sym (append-nil xs)) m
