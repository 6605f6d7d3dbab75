-- ===== src/Rag.antt =====
-- internal/rag/rag.go, client.go and memory.go: the client of the retrieval service. The service, the
-- JSON of its requests and answers, `%g` and the conversion of a `float64` to an `int` are parameters.
-- (A nil slice of kinds is the empty list; reading a body to its end is part of the answer.)
use cofiswarm_dispatch.Prelude.{
  ℕ, ◌+◌, Text, codes, is_empty, Bool, true, false, not, ◌||◌, Option, none, some, List, [], ◌∷◌,
  ◌++◌, keep, ◌==◌, if◌then◌else◌,
}
use cofiswarm_dispatch.Prelude.Decimal.{ℤ, pos, itoa}
use cofiswarm_dispatch.Prelude.Float.{Float64, float_of_bits, float_lt}
use cofiswarm_dispatch.Prelude.Space.{trim_space, trim_right_slash}
use cofiswarm_dispatch.Backend.Router.{Env, env_truthy}
use cofiswarm_dispatch.Agent.{decimal}
use cofiswarm_dispatch.Http.{Reply, no_connection, answer}
use cofiswarm_dispatch.Json.{Value, yes_value, no_value, int, float, text, Fields, lookup}

pub record Settings : Type 0 where
  pub enabled : Bool
  pub top_k : ℤ
  pub min_score : Float64
  pub retrieve_url : Text
  pub kinds : List Text

pub record Hit : Type 0 where
  pub hit_id : ℤ
  pub source_path : Text
  pub chunk_idx : ℤ
  pub content : Text
  pub distance : Float64
  pub kind : Text

-- A minimal score of 1.0.
unfoldable pub defaults : Settings
defaults = record {
  enabled = false;
  top_k = pos 3;
  min_score = float_of_bits 0x3FF0000000000000;
  retrieve_url = codes "http://127.0.0.1:8001";
  kinds = [];
}

-- A number of either kind, with the conversion of a `float64`.
unfoldable pub num_as_int : (Float64 → ℤ) → Option Value → Option ℤ
num_as_int to_int (some (float x)) = some (to_int x)
num_as_int to_int (some (int n)) = some n
num_as_int to_int _ = none

with_enabled : Option Value → Settings → Settings
with_enabled (some yes_value) s = record s { enabled = true }
with_enabled (some no_value) s = record s { enabled = false }
with_enabled _ s = s

with_top_k : Option ℤ → Settings → Settings
with_top_k (some n) s = record s { top_k = n }
with_top_k none s = s

with_min_score : Option Value → Settings → Settings
with_min_score (some (float x)) s = record s { min_score = x }
with_min_score _ s = s

-- A URL that is empty changes nothing.
with_url : Text → Settings → Settings
with_url u s = if is_empty u then s else record s { retrieve_url = u }

with_url_value : Option Value → Settings → Settings
unfolding with_url
with_url_value (some (text u)) s = with_url u s
with_url_value _ s = s

unfoldable pub settings_from_config : (Float64 → ℤ) → Env → Fields → Settings
unfolding num_as_int with_enabled with_top_k with_min_score with_url with_url_value
settings_from_config to_int env block = with_url (env (codes "COFISWARM_RAG_URL")) (
    with_url_value (lookup (codes "retrieve_url") block) (
      with_min_score (lookup (codes "min_score") block) (
        with_top_k (num_as_int to_int (lookup (codes "top_k") block))
          (with_enabled (lookup (codes "enabled") block) defaults))))

unfoldable pub settings_from_env : Env → Settings
unfolding with_url
settings_from_env env = with_url (env (codes "COFISWARM_RAG_URL")) (
    if env_truthy env (codes "COFISWARM_RAG_ENABLED")
    then record defaults { enabled = true }
    else defaults)

pub record Service : Type 1 where
  pub World : Type 0
  pub post : (url body : Text) → World → Reply × World
  pub fetch : (url : Text) → World → Reply × World
  pub query_body : (query : Text) → (k : ℤ) → (kinds : List Text) → Text
  pub memory_body : (kind lesson : Text) → (memory_id : Option Text) → Text
  -- The chunks of an answer, with no id; `none` if it does not parse.
  pub chunks : Text → Option (List Hit)

-- How a call ends that answers with nothing or an error.
pub data Failure : Type 0 where
  disabled : Failure
  unreachable : Text → Failure
  bad_status : ℕ → Text → Failure

-- The chunks that are not farther than the ceiling.
unfoldable pub near : Float64 → Option (List Hit) → List Hit
near ceiling none = []
near ceiling (some hits) = keep (λ h. not (float_lt ceiling h.distance)) hits

id_field : Text → Option Text
id_field [] = none
id_field (c ∷ cs) = some (c ∷ cs)

module _ (service : Service) where
  open service use {World, post, fetch, query_body, memory_body, chunks}

  unfoldable pub hits_of : Float64 → Reply → List Hit
  unfolding near
  hits_of ceiling (no_connection e) = []
  hits_of ceiling (answer status body) = if status == 200 then near ceiling (chunks body) else []

  unfoldable pub retrieve : Settings → Text → World → List Hit × World
  retrieve s query w =
      if not s.enabled || is_empty query
      then ([], w)
      else (let (reply, w') =
            post (trim_right_slash s.retrieve_url ++ codes "/retrieve")
              (query_body query s.top_k s.kinds) w in
          (hits_of s.min_score reply, w'))

  failure_of : Reply → Option Failure
  failure_of (no_connection e) = some (unreachable e)
  failure_of (answer status body) = if status == 200 then none else some (bad_status status [])

  unfoldable pub health_check : Settings → World → Option Failure × World
  unfolding failure_of
  health_check s w =
      if not s.enabled
      then (some disabled, w)
      else (let (reply, w') = fetch (trim_right_slash s.retrieve_url ++ codes "/health") w in
          (failure_of reply, w'))

  put_failure : Reply → Option Failure
  put_failure (no_connection e) = some (unreachable e)
  put_failure (answer status body) =
      if status == 200 then none else some (bad_status status (trim_space body))

  unfoldable pub put_memory :
      Settings → (kind lesson memory_id : Text) → World → Option Failure × World
  unfolding id_field put_failure
  put_memory s kind lesson memory_id w =
      let (reply, w') =
        post (trim_right_slash s.retrieve_url ++ codes "/memory")
          (memory_body kind lesson (id_field memory_id)) w in
      (put_failure reply, w')

module _ (show_float : Float64 → Text) where
  -- `[#%d ... distance=%g]` and the content, each on its own lines.
  render_hit : ℕ → Hit → Text
  render_hit n h =
      let tail =
        codes " distance=" ++ show_float h.distance ++ codes "]\n" ++ h.content ++ codes "\n" in
      if is_empty h.kind
      then codes "[#"
        ++ itoa n
        ++ codes " "
        ++ h.source_path
        ++ codes " chunk="
        ++ decimal h.chunk_idx
        ++ tail
      else codes "[#" ++ itoa n ++ codes " memory:" ++ h.kind ++ codes " " ++ h.source_path ++ tail

  render_hits : ℕ → List Hit → Text
  unfolding render_hit
  render_hits n [] = []
  render_hits n (h ∷ hs) = render_hit n h ++ render_hits (n + 1) hs

  unfoldable pub render_context_block : List Hit → Text
  unfolding render_hits
  render_context_block [] = []
  render_context_block (h ∷ hs) =
      codes "<context source=\"rag\">\n" ++ render_hits 0 (h ∷ hs) ++ codes "</context>\n\n"
