-- ===== src/Prepare/Build.antt =====
-- `BuildRAG`: the prompt augmented by retrieval. The retriever and `%g` are parameters.
use cofiswarm_dispatch.Prelude.{
  Text, codes, Bool, true, false, not, ◌&&◌, ◌||◌, Option, none, some, List, [], ◌∷◌, ◌++◌, ltb,
  if◌then◌else◌,
}
use cofiswarm_dispatch.Prelude.Decimal.{ℤ, pos, negsuc}
use cofiswarm_dispatch.Prelude.Float.{Float64, float_of_bits, float_le, zero_float}
use cofiswarm_dispatch.Json.{
  yes_value, no_value, int, float, text, array, object, Items, nil, cons, Fields, end, field,
  insert,
}
use cofiswarm_dispatch.Rag.{Settings, Hit, Service, retrieve, render_context_block}
use cofiswarm_dispatch.Prepare.{Request, RagResult, bool_value}

pub record Retriever : Type 1 where
  pub World : Type 0
  pub ask : Settings → Text → World → List Hit × World

abbrev pub memory_kinds : List Text
memory_kinds = codes "fact" ∷ codes "preference" ∷ []

-- Three, or fewer if the base asks for fewer.
memory_top_k : ℤ → ℤ
memory_top_k (pos n) = if ltb 0 n && ltb n 3 then pos n else pos 3
memory_top_k (negsuc n) = pos 3

unfoldable pub memory_settings : Settings → Settings
unfolding memory_top_k
memory_settings base = record base { kinds = memory_kinds; top_k = memory_top_k base.top_k }

abbrev is_some_hit : List Hit → Bool
is_some_hit [] = false
is_some_hit (h ∷ hs) = true

text_values : List Text → Items
text_values [] = nil
text_values (t ∷ ts) = cons (text t) (text_values ts)

memory_items : List Hit → Items
memory_items [] = nil
memory_items (h ∷ hs) =
    cons
      (object (
        field (codes "source_path") (text h.source_path)
          (field (codes "kind") (text h.kind) (field (codes "distance") (float h.distance) end))))
      (memory_items hs)

unfoldable pub memory_meta : List Hit → Fields
unfolding memory_items text_values
memory_meta hits = field (codes "used") (bool_value (is_some_hit hits)) (
    field (codes "kinds") (array (text_values memory_kinds))
      (field (codes "hits") (array (memory_items hits)) end))

source_items : List Hit → Items
source_items [] = nil
source_items (h ∷ hs) =
    cons
      (object (
        field (codes "source_path") (text h.source_path) (
          field (codes "chunk_idx") (int h.chunk_idx) (
            field (codes "distance") (float h.distance)
              (field (codes "content") (text h.content) end)))))
      (source_items hs)

-- At most 20; what is not positive keeps the base.
capped_top_k : ℤ → ℤ → ℤ
capped_top_k (negsuc n) base = base
capped_top_k (pos n) base = if ltb 0 n then (if ltb 20 n then pos 20 else pos n) else base

override_min_score : Float64 → Float64 → Float64
override_min_score x base =
    if float_le zero_float x && float_le x (float_of_bits 0x3FF0000000000000) then x else base

override_kinds : List Text → List Text → List Text
override_kinds [] base = base
override_kinds (k ∷ ks) base = k ∷ ks

-- The overrides of one request.
unfoldable pub request_settings : Request → Settings → Settings
unfolding capped_top_k override_min_score override_kinds
request_settings req base = record base {
  top_k = capped_top_k req.rag_top_k base.top_k;
  min_score = override_min_score req.rag_min_score base.min_score;
  kinds = override_kinds req.rag_kinds base.kinds;
}

-- The memory's note, if there are hits.
with_memory : List Hit → Fields → Fields
with_memory [] m = m
with_memory (h ∷ hs) m = insert (codes "memory") (object (memory_meta (h ∷ hs))) m

-- The meta of a request that asked for no documents: none if the memory gave nothing.
memory_only_meta : List Hit → Option Fields
memory_only_meta [] = none
memory_only_meta (h ∷ hs) = some (
    field (codes "requested") no_value
      (field (codes "used") no_value (field (codes "memory") (object (memory_meta (h ∷ hs))) end)))

with_targets : List Text → Fields → Fields
unfolding text_values
with_targets [] m = m
with_targets (a ∷ rest) m = insert (codes "targeted_agents") (array (text_values (a ∷ rest))) m

documents_meta : Settings → List Hit → Fields
unfolding source_items
documents_meta s hits = field (codes "requested") yes_value (
    field (codes "used") (bool_value (is_some_hit hits)) (
      field (codes "top_k") (int s.top_k) (
        field (codes "min_score") (float s.min_score)
          (field (codes "hits") (array (source_items hits)) end))))

disabled_meta : Fields
disabled_meta = field (codes "requested") yes_value (
    field (codes "used") no_value
      (field (codes "reason") (text (codes "rag.enabled is false")) end))

-- Where the documents go: before the prompt, or apart for the agents that are named.
unfoldable pub place : List Text → (memory documents prompt : Text) → Option Fields → RagResult
place [] memory documents prompt meta = record {
  effective_prompt = memory ++ documents ++ prompt;
  rag_block = [];
  rag_meta = meta;
}
place (a ∷ rest) memory documents prompt meta = record {
  effective_prompt = memory ++ prompt;
  rag_block = documents;
  rag_meta = meta;
}

module _ (retriever : Retriever) where
  open retriever use {World, ask}

  unfoldable pub retrieve_memory : Request → Settings → World → List Hit × World
  retrieve_memory req base w =
      if not req.use_memory || not base.enabled
      then ([], w)
      else ask (memory_settings base) req.prompt w

module _ (retriever : Retriever) (show_float : Float64 → Text) where
  open retriever use {World, ask}

  -- After the memory's hits.
  build_with : Request → Text → Settings → List Hit → World → RagResult × World
  unfolding memory_only_meta disabled_meta documents_meta with_memory with_targets
  build_with req prompt base memory w =
      let block = render_context_block show_float memory in
      let s = request_settings req base in
      let (hits, w') = ask s req.prompt w in
      let plain : RagResult = record {
        effective_prompt = block ++ prompt;
        rag_block = [];
        rag_meta = memory_only_meta memory;
      } in
      if not req.use_rag
      then (plain, w)
      else if not s.enabled
      then (record plain { rag_meta = some disabled_meta }, w)
      else (
        place req.rag_agents block (render_context_block show_float hits) prompt
            (some (with_targets req.rag_agents (with_memory memory (documents_meta s hits)))),
        w',
      )

  unfoldable pub build_rag : Request → Text → Settings → World → RagResult × World
  unfolding build_with
  build_rag req prompt base w =
      let (memory, w') = retrieve_memory retriever req base w in
      build_with req prompt base memory w'

-- `*rag.Client` as a retriever.
abbrev pub client : Service → Retriever
client service = record { World = service.World; ask = retrieve service }
