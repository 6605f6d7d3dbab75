-- ===== src/Agent.antt =====
-- internal/agent/agent.go, and the parts of client.go that shape a request and read an answer.
pub mod Client
pub mod Stream
pub mod Sse
pub mod Strip
pub mod Tests
use cofiswarm_dispatch.Prelude.{
  ℕ, ◌+◌, ◌-◌, ◌*◌, Text, codes, text_eq, is_empty, has_prefix, Bool, true, false, not, ◌&&◌, ◌||◌,
  Option, none, some, List, [], ◌∷◌, ◌++◌, length, take, ltb, leb, if◌then◌else◌, ◌≡◌, ◌≤◌, ◌<◌,
  ◌^◌, ◌%◌, refl, arith,
}
use cofiswarm_dispatch.Prelude.Decimal.{itoa, ℤ, pos, negsuc, wrap, wrap_small, max_int}
use cofiswarm_dispatch.Prelude.Utf8.{to_valid_utf8}
use cofiswarm_dispatch.Backend
use cofiswarm_dispatch.Backend.{BackendId, llama_metal, python_mlx}

-- The fields that dispatch reads.
pub record Agent : Type 0 where
  pub name : Text
  pub engine : Text
  pub backend : Text
  pub model : Text
  pub tags : List Text
  pub inference_backend : Text
  pub port : ℤ
  pub description : Text
  pub system_prompt : Text
  pub max_input_tokens : ℤ
  pub max_output_tokens : ℤ
  pub max_tokens : ℤ
  pub context_window : ℤ
  pub read_timeout_secs : ℤ
  pub use_rag : Bool
  pub rag_top_k : ℤ
  pub rag_kinds : List Text

unfoldable pub to_backend : Agent → Backend.Agent
to_backend a = record {
  name = a.name;
  engine = a.engine;
  backend = a.backend;
  model = a.model;
  tags = a.tags;
  inference_backend = a.inference_backend;
}

unfoldable pub with_engine : Agent → Text → Agent
with_engine a engine = record a { engine = engine }

unfoldable pub materialized_engine : BackendId → Text
materialized_engine python_mlx = codes "mlx"
materialized_engine llama_metal = codes "llama"

unfoldable pub probe_id : Text → BackendId
probe_id engine = if text_eq engine (codes "mlx") then python_mlx else llama_metal

-- `%d`.
unfoldable pub decimal : ℤ → Text
decimal (pos n) = itoa n
decimal (negsuc n) = b'-' ∷ itoa (n + 1)

unfoldable pub not_responding : Agent → Text
not_responding a =
    codes "Agent " ++ a.name ++ codes " (Port " ++ decimal a.port ++ codes ") is not responding."

-- The template tokens.
unfoldable pub llama_stops : List Text
llama_stops =
    codes "<|im_end|>"
    ∷ codes "<|im_start|>"
    ∷ codes "<|eot_id|>"
    ∷ codes "<|start_header_id|>"
    ∷ codes "<|endoftext|>"
    ∷ []

-- What stands before the first occurrence of a token.
unfoldable pub before : Text → Text → Text
before token [] = []
before token (c ∷ s) = if has_prefix (c ∷ s) token then [] else c ∷ before token s

strip_all : List Text → Text → Text
strip_all [] s = s
strip_all (t ∷ ts) s = strip_all ts (before t s)

unfoldable pub strip_template_leakage : Text → Text
unfolding strip_all before llama_stops
strip_template_leakage s = strip_all llama_stops s

pub record Message : Type 0 where
  pub role : Text
  pub content : Text

-- The body of /v1/chat/completions; a key that is not set is `none`.
pub record Body : Type 0 where
  pub messages : List Message
  pub max_tokens : ℤ
  pub model : Option Text
  pub num_predict : Option ℤ
  pub cache_prompt : Bool
  pub stop : Option (List Text)

abbrev user_message : Text → Message
user_message content = record { role = codes "user"; content = content }

unfoldable pub build_messages : Agent → Text → Text → List Message
build_messages a system prompt =
    if text_eq a.engine (codes "mlx") && not (is_empty system)
    then user_message (system ++ codes "\n\n" ++ prompt) ∷ []
    else if not (is_empty system)
    then record { role = codes "system"; content = system } ∷ user_message prompt ∷ []
    else user_message prompt ∷ []

abbrev pub is_positive : ℤ → Bool
is_positive (negsuc n) = false
is_positive (pos n) = ltb 0 n

cut_at : ℤ → Text → Text
cut_at (negsuc n) prompt = prompt
cut_at (pos n) prompt = if ltb n (length prompt) then take n prompt else prompt

-- About 4 bytes for a token. A bound that wraps to a negative number panics (`cap_panics`); a call ends
-- before it comes here with one.
unfoldable pub cap_prompt : ℤ → Text → Text
unfolding cut_at
cap_prompt (negsuc n) prompt = prompt
cap_prompt (pos n) prompt = if ltb 0 n then cut_at (wrap (n * 4)) prompt else prompt

is_below_zero : ℤ → Bool
is_below_zero (negsuc n) = true
is_below_zero (pos n) = false

-- Whether `prompt[:a.MaxInputTokens*4]` is sliced with a negative bound, which every prompt is longer than.
unfoldable pub cap_panics : ℤ → Bool
unfolding is_below_zero
cap_panics (negsuc n) = false
cap_panics (pos n) = ltb 0 n && is_below_zero (wrap (n * 4))

pub cap_panics_wrap : (k : ℤ) (n : ℕ) → k ≡ pos n → 2 ^ 61 ≤ n → n < 2 ^ 62 → cap_panics k ≡ true
unfolding cap_panics wrap
cap_panics_wrap (negsuc m) n e lo hi = cc
cap_panics_wrap (pos m) n e lo hi =
    let same : m ≡ n = ground arith in
    let above : ltb ((m * 4) % 2 ^ 64) (2 ^ 63) ≡ false = ground arith in rw above (ground arith)

-- The product fits an int.
abbrev pub HasSmallCap : Agent → Type 0
HasSmallCap a = (n : ℕ) → a.max_input_tokens ≡ pos n → n * 4 ≤ max_int

cap_panics_small : (k : ℤ) → ((n : ℕ) → k ≡ pos n → n * 4 ≤ max_int) → cap_panics k ≡ false
unfolding cap_panics
cap_panics_small (negsuc n) h = refl
cap_panics_small (pos n) h = rw (wrap_small (n * 4) (h n refl)) (ground arith)

pub cap_panics-HasSmallCap : (a : Agent) → HasSmallCap a → cap_panics a.max_input_tokens ≡ false
cap_panics-HasSmallCap a h = cap_panics_small a.max_input_tokens h

takes_model : Text → Bool
takes_model b =
    text_eq b (codes "docker") || text_eq b (codes "vllm") || text_eq b (codes "docker-vllm")

unfoldable pub completion_body : Agent → Text → Text → Body
unfolding cap_prompt takes_model build_messages
completion_body a system prompt =
    let llama = text_eq a.engine (codes "llama") in
    record {
      messages = build_messages a system (cap_prompt a.max_input_tokens prompt);
      max_tokens = if is_positive a.max_output_tokens then a.max_output_tokens else a.max_tokens;
      model = if not (is_empty a.model) && takes_model a.backend then some a.model else none;
      num_predict =
          if llama && is_positive a.max_output_tokens then some a.max_output_tokens else none;
      cache_prompt = llama;
      stop = if llama then some llama_stops else none;
    }
