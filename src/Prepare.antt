-- ===== src/Prepare.antt =====
-- internal/prepare/prepare.go: the request of a dispatch and its parsing. The JSON of a request and the
-- minting of ids are parameters.
pub mod Build
pub mod Stamp
pub mod Block
pub mod Tests
use cofiswarm_dispatch.Prelude.{
  Text, codes, is_empty, Bool, true, false, not, ◌&&◌, ◌||◌, Option, none, some, List, [], ◌∷◌,
  ◌++◌, ltb, if◌then◌else◌,
}
use cofiswarm_dispatch.Prelude.Decimal.{ℤ, pos, negsuc}
use cofiswarm_dispatch.Prelude.Float.{Float64, float_of_bits, float_le, zero_float}
use cofiswarm_dispatch.Json.{
  Value, yes_value, no_value, int, float, text, array, object, Items, nil, cons, Fields, end, field,
  lookup, insert, as_object, json_string,
}
use cofiswarm_dispatch.Rag.{Settings, Hit, Service, retrieve, render_context_block}

pub record Request : Type 0 where
  pub prompt : Text
  pub temperature : Float64
  pub followup : Bool
  pub quality_pass : Bool
  pub session_id : Text
  pub run_id : Text
  pub parent_run_id : Text
  pub context_policy : Fields
  pub use_rag : Bool
  pub rag_top_k : ℤ
  pub rag_min_score : Float64
  pub rag_agents : List Text
  pub rag_kinds : List Text
  pub use_memory : Bool
  pub mode : Text
  pub mode_config : Fields
  pub kv_pressure : Float64

-- What the decoder starts from: 0.7, -1 and a memory that is on.
abbrev initial : Request
initial = record {
  prompt = [];
  temperature = float_of_bits 0x3FE6666666666666;
  followup = false;
  quality_pass = false;
  session_id = [];
  run_id = [];
  parent_run_id = [];
  context_policy = end;
  use_rag = false;
  rag_top_k = pos 0;
  rag_min_score = float_of_bits 0xBFF0000000000000;
  rag_agents = [];
  rag_kinds = [];
  use_memory = true;
  mode = [];
  mode_config = end;
  kv_pressure = zero_float;
}

mint_ids : (Text → Text) → Option Request → Option Request
mint_ids new_id none = none
mint_ids new_id (some r) = some (record r {
  session_id = if is_empty r.session_id then new_id (codes "sess") else r.session_id;
  run_id = new_id (codes "run");
})

-- `decode` overlays a body on the request it is given; `none` is its error.
unfoldable pub parse : (Text → Request → Option Request) → (Text → Text) → Text → Option Request
unfolding mint_ids
parse decode new_id raw = mint_ids new_id (decode raw initial)

pub record RagResult : Type 0 where
  pub effective_prompt : Text
  pub rag_block : Text
  pub rag_meta : Option Fields

abbrev pub bool_value : Bool → Value
bool_value true = yes_value
bool_value false = no_value
