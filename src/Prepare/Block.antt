-- ===== src/Prepare/Block.antt =====
-- `BuildRAG`: where the retrieved text goes, and that it stays away when retrieval is down.
use cofiswarm_dispatch.Prelude.{
  Text, codes, false, none, List, [], ◌∷◌, ◌++◌, ◌==◌, ◌≡◌, refl, ap, sym, append-nil, ◌⊎◌, inl,
  inr, Bool-cases, arith,
}
use cofiswarm_dispatch.Prelude.Float.{Float64}
use cofiswarm_dispatch.Prelude.Space.{trim_right_slash}
use cofiswarm_dispatch.Http.{Reply, no_connection, answer}
use cofiswarm_dispatch.Rag.{Settings, near, Service, hits_of, retrieve, render_context_block}
use cofiswarm_dispatch.Prepare.{Request}
use cofiswarm_dispatch.Prepare.Build.{
  Retriever, memory_settings, request_settings, retrieve_memory, build_rag, place, client,
}

module _ (retriever : Retriever) (show_float : Float64 → Text) where
  -- For every retriever, request, prompt and settings, with the memory block of the request: naming
  -- agents for retrieval moves the block of documents out of the prompt and into the block for those
  -- agents, and changes nothing else of the two. The prompt that names agents is the memory block and
  -- the original prompt; the one that names none has the same documents between them, and an empty block.
  pub build_rag-targeted :
      (req : Request) (agent : Text) (more : List Text) (prompt : Text) (base : Settings)
      (w : retriever.World)
      → let targeted =
          (build_rag retriever show_float
            (record req { rag_agents = agent ∷ more })
            prompt
            base
            w).0 in
        let open_to_all =
          (build_rag retriever show_float (record req { rag_agents = [] }) prompt base w).0 in
        let memory = render_context_block show_float (retrieve_memory retriever req base w).0 in
        (targeted.effective_prompt ≡ memory ++ prompt)
        × (open_to_all.effective_prompt ≡ memory ++ targeted.rag_block ++ prompt)
        × (open_to_all.rag_block ≡ [])
  unfolding build_rag retrieve_memory request_settings place
  build_rag-targeted req agent more prompt base w =
      let memory = render_context_block show_float (retrieve_memory retriever req base w).0 in
      let no_documents : memory ++ prompt ≡ memory ++ [] ++ prompt =
        ap (λ m. m ++ prompt) (sym (append-nil memory)) in
      elim (Bool-cases req.use_rag) [
        | inl e ↦ elim (Bool-cases base.enabled) [ inl f ↦ ground arith | inr f ↦ ground arith ]
        | inr e ↦ ground arith
      ]

-- No answer, an answer that is not a 200, or one that does not parse.
abbrev pub IsFailed : (service : Service) → Reply → Type 0
IsFailed service (no_connection e) = Unit
IsFailed service (answer status body) = ((status == 200) ≡ false) ⊎ (service.chunks body ≡ none)

hits_of-failed :
    (service : Service) (ceiling : Float64) (reply : Reply)
    → IsFailed service reply
    → hits_of service ceiling reply ≡ []
unfolding hits_of near
hits_of-failed service ceiling (no_connection e) h = refl
hits_of-failed service ceiling (answer status body) (inl h) = rw h refl
hits_of-failed service ceiling (answer status body) (inr h) = ground arith

abbrev pub IsDown : Service → Settings → Type 0
IsDown service base =
    (base.enabled ≡ false)
    ⊎ ((url body : Text) (w : service.World) → IsFailed service (service.post url body w).0)

retrieve-failed :
    (service : Service) (s : Settings) (query : Text) (w : service.World)
    → ((url body : Text) (w : service.World) → IsFailed service (service.post url body w).0)
    → (retrieve service s query w).0 ≡ []
unfolding retrieve
retrieve-failed service s query w h =
    let url = trim_right_slash s.retrieve_url ++ codes "/retrieve" in
    let body = service.query_body query s.top_k s.kinds in
    let silent = hits_of-failed service s.min_score (service.post url body w).0 (h url body w) in
    ground (arith, silent)

module _ (service : Service) (show_float : Float64 → Text) where
  -- Where retrieval is disabled in the base settings, or every post to the service fails (no connection,
  -- another status than 200, or an answer that does not parse), `BuildRAG` on the service's client
  -- returns the prompt unchanged and an empty block, for every request.
  pub build_rag-down :
      (req : Request) (prompt : Text) (base : Settings) (w : service.World)
      → IsDown service base
      → let res = (build_rag (client service) show_float req prompt base w).0 in
        (res.effective_prompt ≡ prompt) × (res.rag_block ≡ [])
  unfolding build_rag retrieve_memory request_settings place render_context_block
  build_rag-down req prompt base w (inl h) = ground arith
  build_rag-down req prompt base w (inr h) =
      let memory = retrieve-failed service (memory_settings base) req.prompt w h in
      let w' = (retrieve_memory (client service) req base w).1 in
      let docs = retrieve-failed service (request_settings req base) req.prompt w' h in
      ground (arith, memory, docs)
