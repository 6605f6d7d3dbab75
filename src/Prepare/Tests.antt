-- ===== src/Prepare/Tests.antt =====
-- A request for documents, against a service with one chunk and against one that is down.
use cofiswarm_dispatch.Prelude.{Text, codes, true, false, some, [], ◌∷◌, ◌++◌, ◌≡◌, refl, inl, inr}
use cofiswarm_dispatch.Prelude.Decimal.{pos}
use cofiswarm_dispatch.Prelude.Float.{Float64, zero_float}
use cofiswarm_dispatch.Json.{end}
use cofiswarm_dispatch.Http.{Reply, answer}
use cofiswarm_dispatch.Rag.{Settings, Hit, Service, render_context_block}
use cofiswarm_dispatch.Prepare.{Request}
use cofiswarm_dispatch.Prepare.Build.{Retriever, retrieve_memory, build_rag, client}
use cofiswarm_dispatch.Prepare.Block.{build_rag-targeted, build_rag-down}

abbrev pub request : Request
request = record {
  prompt = codes "Hi";
  temperature = zero_float;
  followup = false;
  quality_pass = false;
  session_id = codes "sess_1";
  run_id = codes "run_1";
  parent_run_id = [];
  context_policy = end;
  use_rag = true;
  rag_top_k = pos 0;
  rag_min_score = zero_float;
  rag_agents = [];
  rag_kinds = [];
  use_memory = true;
  mode = codes "pipeline";
  mode_config = end;
  kv_pressure = zero_float;
}

abbrev chunk : Hit
chunk = record {
  hit_id = pos 0;
  source_path = codes "notes.md";
  chunk_idx = pos 0;
  content = codes "Ports start at 8081.";
  distance = zero_float;
  kind = codes "fact";
}

abbrev settings : Settings
settings = record {
  enabled = true;
  top_k = pos 3;
  min_score = zero_float;
  retrieve_url = codes "http://rag/";
  kinds = [];
}

abbrev service_of : Reply → Service
service_of reply = record {
  World = Unit;
  post = λ url body w. (reply, tt);
  fetch = λ url w. (reply, tt);
  query_body = λ query k kinds. query;
  memory_body = λ kind lesson memory_id. lesson;
  chunks = λ body. some (chunk ∷ []);
}

abbrev show_zero : Float64 → Text
show_zero x = codes "0"

abbrev up : Retriever
up = client (service_of (answer 200 []))

build_rag-targeted_example :
    let targeted =
      (build_rag up show_zero
        (record request { rag_agents = codes "librarian" ∷ [] })
        (codes "Hi")
        settings
        tt).0 in
    let open_to_all =
      (build_rag up show_zero (record request { rag_agents = [] }) (codes "Hi") settings tt).0 in
    let memory = render_context_block show_zero (retrieve_memory up request settings tt).0 in
    (targeted.effective_prompt ≡ memory ++ codes "Hi")
    × (open_to_all.effective_prompt ≡ memory ++ targeted.rag_block ++ codes "Hi")
    × (open_to_all.rag_block ≡ [])
build_rag-targeted_example =
    build_rag-targeted up show_zero request (codes "librarian") [] (codes "Hi") settings tt

build_rag-down_example :
    let res =
      (build_rag
        (client (service_of (answer 503 [])))
        show_zero
        request
        (codes "Hi")
        settings
        tt).0 in
    (res.effective_prompt ≡ codes "Hi") × (res.rag_block ≡ [])
build_rag-down_example =
    build_rag-down (service_of (answer 503 [])) show_zero request (codes "Hi") settings tt
      (inr (λ url body w. inl refl))
