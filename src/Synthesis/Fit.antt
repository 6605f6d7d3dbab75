-- ===== src/Synthesis/Fit.antt =====
-- internal/synthesis/assemble.go, and `buildPrompt` of budget.go. `headers[i]` and `bodies[i]` are a
-- list of pairs, so that their lengths agree, as `buildPrompt` makes them.
pub mod Bounds
pub mod Exact
use cofiswarm_dispatch.Prelude.{
  ℕ, zero, suc, ◌+◌, ◌-◌, ◌*◌, ◌/◌, ◌≤◌, min, Text, codes, is_empty, Bool, true, false, Option,
  none, some, List, [], ◌∷◌, ◌++◌, length, take, map, ltb, leb, ◌==◌, if◌then◌else◌,
}
use cofiswarm_dispatch.Prelude.Decimal.{itoa}
use cofiswarm_dispatch.Agent.{Agent}
use cofiswarm_dispatch.Synthesis.{
  Block, truncate_note, effective_max_prompt_chars, pipeline_footer, cascade_footer, stream_footer,
}

-- A header and its body.
abbrev pub Part : Type 0
Part = Text × Text

unfoldable pub headers_len : List Part → ℕ
headers_len [] = 0
headers_len ((h, b) ∷ ps) = length h + headers_len ps

unfoldable pub bodies_len : List Part → ℕ
bodies_len [] = 0
bodies_len ((h, b) ∷ ps) = length b + bodies_len ps

unfoldable pub join_parts : List Part → Text
join_parts [] = []
join_parts ((h, b) ∷ ps) = h ++ (b ++ join_parts ps)

-- `join`.
unfoldable pub join : Text → List Part → Text → Text
unfolding join_parts
join prefix parts footer = prefix ++ (join_parts parts ++ footer)

unfoldable pub total_len : Text → List Part → Text → ℕ
unfolding headers_len bodies_len
total_len prefix parts footer = length prefix + length footer + headers_len parts + bodies_len parts

unfoldable pub overhead : Text → List Part → Text → ℕ
unfolding headers_len
overhead prefix parts footer = length prefix + length footer + headers_len parts

-- The share of one body, 128 at least.
unfoldable pub share : (room total_body : ℕ) → Text → ℕ
share room total_body b = let a = room * length b / total_body in if ltb a 128 then 128 else a

-- The first loop: the shares.
unfoldable pub shares : (room total_body : ℕ) → List Part → List ℕ
unfolding share
shares room total_body [] = []
shares room total_body ((h, b) ∷ ps) = share room total_body b ∷ shares room total_body ps

-- What the bodies claim of their shares.
unfoldable pub claimed : List Part → List ℕ → ℕ
claimed ((h, b) ∷ ps) (a ∷ as_) = min (length b) a + claimed ps as_
claimed [] as_ = 0
claimed (p ∷ ps) [] = 0

-- The second loop: the slack goes to the first bodies that can use it.
unfoldable pub spread : ℕ → List Part → List ℕ → List ℕ
spread slack ((h, b) ∷ ps) (a ∷ as_) =
    let extra = if ltb a (length b) then min slack (length b - a) else 0 in
    (a + extra) ∷ spread (slack - extra) ps as_
spread slack [] as_ = as_
spread slack (p ∷ ps) [] = []

-- The third loop.
unfoldable pub trim_bodies : List Part → List ℕ → List Part
trim_bodies ((h, b) ∷ ps) (a ∷ as_) =
    (h, if ltb a (length b) then truncate_note b a else b) ∷ trim_bodies ps as_
trim_bodies [] as_ = []
trim_bodies (p ∷ ps) [] = p ∷ ps

-- The bodies cut to the room.
unfoldable pub fit_bodies : ℕ → List Part → List Part
fit_bodies room parts =
    let total_body = bodies_len parts in
    let alloc = shares room total_body parts in
    if ltb room total_body
    then trim_bodies parts (spread (room - claimed parts alloc) parts alloc)
    else parts

-- Every body cut to 256, where the budget is below the fixed parts.
unfoldable pub aggressive : List Part → List Part
aggressive [] = []
aggressive ((h, b) ∷ ps) = (h, truncate_note b 256) ∷ aggressive ps

unfoldable pub assemble_fit : Text → List Part → Text → ℕ → Text
assemble_fit prefix parts footer max_total =
    if leb max_total (overhead prefix parts footer + 16)
    then truncate_note (join (truncate_note prefix (max_total / 3)) (aggressive parts) footer)
        max_total
    else if leb (total_len prefix parts footer) max_total
    then join prefix parts footer
    else (let out =
          join prefix (fit_bodies (max_total - overhead prefix parts footer) parts) footer in
        if ltb max_total (length out) then truncate_note out max_total else out)

header : Text → ℕ → Text → Text
header kind n label =
    if is_empty kind
    then codes "\n--- " ++ itoa n ++ codes " (" ++ label ++ codes ") ---\n"
    else codes "\n--- " ++ kind ++ codes " " ++ itoa n ++ codes " (" ++ label ++ codes ") ---\n"

-- Blocks are numbered from 1.
unfoldable pub parts_of : Text → ℕ → List Block → List Part
unfolding header
parts_of kind n [] = []
parts_of kind n (b ∷ bs) = (header kind n b.label, b.body) ∷ parts_of kind (n + 1) bs

unfoldable pub build_prompt :
    (setting user_prompt intro : Text) → List Block → (kind footer : Text) → Option Agent → Text
build_prompt setting user_prompt intro blocks kind footer synth =
    assemble_fit (codes "Original user request:\n<<<\n" ++ user_prompt ++ intro)
      (parts_of kind 1 blocks) footer (effective_max_prompt_chars setting synth)

unfoldable pub build_pipeline_prompt :
    (setting user_prompt : Text) → List Block → Option Agent → Text
build_pipeline_prompt setting user_prompt stages synth =
    build_prompt setting user_prompt
      (codes "\n>>>\n\nThe following agents produced staged outputs:\n") stages (codes "Stage")
      pipeline_footer synth

unfoldable pub build_cascade_prompt :
    (setting user_prompt : Text) → List Block → Option Agent → Text
build_cascade_prompt setting user_prompt responses synth =
    build_prompt setting user_prompt
      (codes "\n>>>\n\nThe following agents responded in parallel:\n") responses (codes "Response")
      cascade_footer synth

unfoldable pub build_stream_prompt : (setting user_prompt : Text) → List Block → Option Agent → Text
build_stream_prompt setting user_prompt contributors synth =
    build_prompt setting user_prompt (codes "\n>>>\n\nThe following agents contributed:\n")
      contributors [] stream_footer synth
