-- ===== src/Synthesis/Tests.antt =====
-- Prompts that do not fit.
use cofiswarm_dispatch.Prelude.{
  ℕ, zero, suc, ◌+◌, ◌-◌, ◌<◌, ◌≤◌, Text, codes, false, List, [], ◌∷◌, length, ◌≡◌, arith,
}
use cofiswarm_dispatch.Prelude.Decimal.{pos}
use cofiswarm_dispatch.Prelude.Utf8.{IsAscii}
use cofiswarm_dispatch.Agent.{Agent}
use cofiswarm_dispatch.Synthesis.{Block, truncate_note}
use cofiswarm_dispatch.Synthesis.Fit.{
  Part, bodies_len, headers_len, claimed, share, shares, fit_bodies, overhead, total_len, join,
  assemble_fit,
}
use cofiswarm_dispatch.Synthesis.Fit.Bounds.{length-assemble_fit-le}
use cofiswarm_dispatch.Synthesis.Tiered.{Caller}
use cofiswarm_dispatch.Synthesis.Tiered.Made.{Made}
use cofiswarm_dispatch.Synthesis.Fit.Exact.{AllAscii, assemble_fit_cut_again}

abbrev stars : ℕ → Text
stars zero = []
stars (suc n) = b'*' ∷ stars n

stars-IsAscii : (n : ℕ) → IsAscii (stars n)
stars-IsAscii zero = tt
stars-IsAscii (suc n) = (omega arith, stars-IsAscii n)

abbrev parts : List Part
parts = (codes "\n1:\n", stars 300) ∷ (codes "\n2:\n", stars 200) ∷ []

parts_ascii : AllAscii parts
parts_ascii = (stars-IsAscii 300, (stars-IsAscii 200, tt))

length-assemble_fit-le_example : length (assemble_fit (codes "ask") parts (codes "end") 420) ≤ 466
length-assemble_fit-le_example = length-assemble_fit-le (codes "ask") parts (codes "end") 420

some_room : overhead (codes "ask") parts (codes "end") + 16 < 420
unfolding overhead headers_len
some_room = omega arith

too_long : 420 < total_len (codes "ask") parts (codes "end")
unfolding total_len headers_len bodies_len
too_long = omega arith

shares_fit :
    claimed parts
      (shares (420 - overhead (codes "ask") parts (codes "end")) (bodies_len parts) parts)
    ≤ 420 - overhead (codes "ask") parts (codes "end")
unfolding claimed shares share overhead headers_len bodies_len
shares_fit = omega arith

assemble_fit_cut_again_example :
    let out =
      join
        (codes "ask")
        (fit_bodies (420 - overhead (codes "ask") parts (codes "end")) parts)
        (codes "end") in
    (466 ≤ length out)
    × (assemble_fit (codes "ask") parts (codes "end") 420 ≡ truncate_note out 420)
assemble_fit_cut_again_example =
    assemble_fit_cut_again (codes "ask") parts (codes "end") 420 parts_ascii some_room too_long
      shares_fit

abbrev synthesizer : Agent
synthesizer = record {
  name = codes "synthesizer";
  engine = codes "llama";
  backend = [];
  model = [];
  tags = [];
  inference_backend = [];
  port = pos 8090;
  description = [];
  system_prompt = [];
  max_input_tokens = pos 0;
  max_output_tokens = pos 0;
  max_tokens = pos 512;
  context_window = pos 4096;
  read_timeout_secs = pos 0;
  use_rag = false;
  rag_top_k = pos 0;
  rag_kinds = [];
}

-- It always gives the same answer.
abbrev constant : Caller
constant = record { World = Unit; call = λ a prompt w. (codes "merged", w) }

abbrev block : Block
block = record { label = codes "coder"; body = codes "An answer." }
