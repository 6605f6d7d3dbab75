-- ===== src/Roster/Tests.antt =====
-- A roster of which one agent opts in.
use cofiswarm_dispatch.Prelude.{Text, codes, Bool, true, false, List, [], ◌∷◌, All}
use cofiswarm_dispatch.Prelude.Decimal.{pos}
use cofiswarm_dispatch.Prelude.Float.{zero_float}
use cofiswarm_dispatch.Json.{end}
use cofiswarm_dispatch.Agent.{Agent}
use cofiswarm_dispatch.Prepare.{Request}
use cofiswarm_dispatch.Roster.{merge_roster_rag}
use cofiswarm_dispatch.Roster.Targets.{IsTargeted, merge_roster_rag-IsTargeted}

abbrev member : Text → Bool → Agent
member name use_rag = record {
  name = name;
  engine = codes "llama";
  backend = [];
  model = [];
  tags = [];
  inference_backend = [];
  port = pos 8081;
  description = [];
  system_prompt = [];
  max_input_tokens = pos 0;
  max_output_tokens = pos 0;
  max_tokens = pos 512;
  context_window = pos 4096;
  read_timeout_secs = pos 0;
  use_rag = use_rag;
  rag_top_k = pos 5;
  rag_kinds = codes "fact" ∷ [];
}

abbrev roster : List Agent
roster = member (codes "coder") false ∷ member (codes "librarian") true ∷ []

abbrev request : Request
request = record {
  prompt = codes "Hi";
  temperature = zero_float;
  followup = false;
  quality_pass = false;
  session_id = codes "sess_1";
  run_id = codes "run_1";
  parent_run_id = [];
  context_policy = end;
  use_rag = false;
  rag_top_k = pos 0;
  rag_min_score = zero_float;
  rag_agents = codes "writer" ∷ [];
  rag_kinds = [];
  use_memory = true;
  mode = codes "pipeline";
  mode_config = end;
  kv_pressure = zero_float;
}

merge_roster_rag-IsTargeted_example :
    All (IsTargeted (merge_roster_rag request roster).rag_agents) roster
merge_roster_rag-IsTargeted_example = merge_roster_rag-IsTargeted request roster
