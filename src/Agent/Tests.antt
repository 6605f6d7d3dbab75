-- ===== src/Agent/Tests.antt =====
-- The client with a network that always answers the same.
use mathlib.Core.List.{flatten}
use cofiswarm_dispatch.Prelude.{
  ℕ, ◌≤◌, Text, codes, contains, arith, text_eq, has_prefix, true, false, Option, none, some, List,
  [], ◌∷◌, ◌++◌, All, ◌≡◌, ◌≢◌, refl,
}
use cofiswarm_dispatch.Prelude.Decimal.{pos}
use cofiswarm_dispatch.Prelude.Space.{trim_space, space_width, space_width_back}
use cofiswarm_dispatch.Prelude.Utf8.{to_valid_utf8, rune_width}
use cofiswarm_dispatch.Prelude.Float.{FloatOps, zero_float}
use cofiswarm_dispatch.Backend.{llama_metal}
use cofiswarm_dispatch.Backend.Router.{Router, Decision, init}
use cofiswarm_dispatch.Agent.{HasSmallCap, Agent, llama_stops, strip_template_leakage}
use cofiswarm_dispatch.Agent.Strip.{strip_template_leakage_lem}
use cofiswarm_dispatch.Agent.Sse.{new_drainer, process_frame, feed}
use cofiswarm_dispatch.Agent.Sse.Chunks.{feed_all, feed_all-flatten}
use cofiswarm_dispatch.Agent.Stream.{Reads, drain_stream}
use cofiswarm_dispatch.Agent.Stream.Drain.{drain_stream-told, drain_stream-flatten}
use cofiswarm_dispatch.Agent.Client.{Net, Client, answer, is_transient, call_with_system}
use cofiswarm_dispatch.Agent.Client.Attempts.{
  counting, call_with_system-count, call_with_system-overflow,
}

strip_template_leakage_lem_example :
    All (λ t. contains (strip_template_leakage (codes "Yes.<|im_end|> No.")) t ≡ false) llama_stops
    × ((r : Text) × (codes "Yes.<|im_end|> No."
          ≡ strip_template_leakage (codes "Yes.<|im_end|> No.") ++ r))
strip_template_leakage_lem_example = strip_template_leakage_lem (codes "Yes.<|im_end|> No.")

-- Every payload is its own delta.
abbrev raw_delta : Text → Option Text
raw_delta payload = some payload

abbrev cut_stream : List Text
cut_stream = codes "data: a\n" ∷ codes "\ndata: [DO" ∷ codes "NE]\n\ndata: b" ∷ []

feed_all-flatten_example :
    feed_all raw_delta cut_stream new_drainer ≡ feed raw_delta new_drainer (flatten cut_stream)
feed_all-flatten_example =
    feed_all-flatten raw_delta (codes "data: a\n")
      (codes "\ndata: [DO" ∷ codes "NE]\n\ndata: b" ∷ []) new_drainer

abbrev two_reads : Reads
two_reads = record {
  before_end = codes "data: a\n" ∷ codes "\ndata:" ∷ [];
  at_end = codes " b\n\ndata: [DONE]";
}

drain_stream-told_example :
    (drain_stream raw_delta two_reads).returned
    ≡ strip_template_leakage (flatten (drain_stream raw_delta two_reads).told)
drain_stream-told_example = drain_stream-told raw_delta two_reads

not_over : (feed raw_delta new_drainer (flatten two_reads.before_end)).done ≡ false
unfolding feed new_drainer flatten has_prefix process_frame trim_space space_width space_width_back
    text_eq to_valid_utf8 rune_width
not_over = refl

drain_stream-flatten_example :
    drain_stream raw_delta two_reads
    ≡ drain_stream raw_delta
        (record { before_end = []; at_end = flatten two_reads.before_end ++ two_reads.at_end })
drain_stream-flatten_example =
    drain_stream-flatten raw_delta two_reads.before_end two_reads.at_end not_over

abbrev no_rounding : FloatOps
no_rounding = record { add = λ x y. x; mul = λ x y. y; div = λ x y. x; of_nat = λ n. zero_float }

abbrev not_found : Net
not_found = record {
  World = Unit;
  post = λ req w. (answer 404 (codes "no such model") zero_float, w);
  choices = λ b. none;
  error_message = λ b. b;
}

abbrev local : Client
local = record { host = codes "127.0.0.1"; bus_url = [] }

abbrev writer : Agent
writer = record {
  name = codes "writer";
  engine = codes "llama";
  backend = [];
  model = [];
  tags = [];
  inference_backend = [];
  port = pos 8081;
  description = [];
  system_prompt = [];
  max_input_tokens = pos 512;
  max_output_tokens = pos 0;
  max_tokens = pos 512;
  context_window = pos 4096;
  read_timeout_secs = pos 0;
  use_rag = false;
  rag_top_k = pos 0;
  rag_kinds = [];
}

abbrev decision : Decision
decision = record {
  backend = llama_metal;
  backend_name = codes "llama_metal";
  reason = codes "legacy_engine";
  used_fallback = false;
}

abbrev greedy : Agent
greedy = record writer { max_input_tokens = pos 3000000000000000000 }

call_with_system-overflow_example :
    let out =
      call_with_system
        (counting not_found)
        no_rounding
        true
        local
        greedy
        []
        (codes "Hi")
        init
        (tt, 0) in
    (out.0 ≡ none) × (out.2 ≡ (tt, 0))
call_with_system-overflow_example =
    call_with_system-overflow not_found no_rounding true local greedy [] (codes "Hi") init tt
      3000000000000000000 0 refl (omega arith) (omega arith)

writer_cap : HasSmallCap writer
writer_cap n e = ground arith

call_with_system-count_example :
    (out : Text × Router × (Unit × ℕ)) × (call_with_system
        (counting not_found)
        no_rounding
        true
        local
        writer
        []
        (codes "Hi")
        init
        (tt, 0)
      ≡ (some out.0, out.1, out.2))
    × (out.0 ≢ [])
    × (1 ≤ out.2.1)
    × (out.2.1 ≤ 4)
call_with_system-count_example =
    call_with_system-count not_found no_rounding true local writer [] (codes "Hi") init tt 0
      writer_cap

not_transient : is_transient local 404 ≡ false
unfolding is_transient
not_transient = refl
