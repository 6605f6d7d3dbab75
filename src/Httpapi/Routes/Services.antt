-- ===== src/Httpapi/Routes/Services.antt =====
-- The routes of rag_routes.go and session_routes.go: retrieval, and the continuation of a session.
use cofiswarm_dispatch.Prelude.{
  Text, codes, is_empty, Bool, true, false, ◌||◌, Option, none, some, List, ◌++◌, map,
  if◌then◌else◌,
}
use cofiswarm_dispatch.Prelude.Space.{trim_right_slash}
use cofiswarm_dispatch.Prelude.Decimal.{itoa}
use cofiswarm_dispatch.Json.{yes_value, no_value, int, float, text, object, Fields, end, field}
use cofiswarm_dispatch.Session.Context.{Continuation}
use cofiswarm_dispatch.Session.Context.Prompt.{build_continuation}
use cofiswarm_dispatch.Rag.{
  Hit, Failure, disabled, unreachable, bad_status, retrieve, health_check, render_context_block,
}
use cofiswarm_dispatch.Prepare.{bool_value}
use cofiswarm_dispatch.Httpapi.{
  Server, Deps, World, Response, json, panicked, post_only, rag_service,
}
use cofiswarm_dispatch.Httpapi.Routes.{
  Decoded, malformed, decoded, error_body, ok_json, found_values,
}

failure_text : (url : Text) → Failure → Text
failure_text url disabled = codes "rag.enabled is false"
failure_text url (unreachable e) = codes "rag service unreachable at " ++ url ++ codes ": " ++ e
failure_text url (bad_status status body) =
    codes "rag service " ++ url ++ codes " status=" ++ itoa status

health_answer : (url : Text) → Option Failure → Response
unfolding failure_text
health_answer url none = ok_json (object (field (codes "ok") yes_value end))
health_answer url (some e) =
    json 503
      (object (field (codes "ok") no_value (field (codes "error") (text (failure_text url e)) end)))

pub record ContinuationBody : Type 0 where
  pub session_id : Text
  pub followup : Text
  pub policy : Fields

hit_fields : Hit → Fields
hit_fields h = field (codes "id") (int h.hit_id) (
    field (codes "source_path") (text h.source_path) (
      field (codes "chunk_idx") (int h.chunk_idx) (
        field (codes "content") (text h.content)
          (field (codes "distance") (float h.distance) (field (codes "kind") (text h.kind) end)))))

module _ (deps : Deps) where
  unfoldable pub handle_rag_health : Server → World deps → Response × World deps
  unfolding health_answer
  handle_rag_health s w =
      let url = trim_right_slash s.rag_cfg.retrieve_url ++ codes "/health" in
      let (failure, w') = health_check (rag_service deps) s.rag_cfg w in
      (health_answer url failure, w')

  retrieved : Server → List Hit → Response
  unfolding hit_fields found_values
  retrieved s hits = ok_json (
      object (
        field (codes "enabled") (bool_value s.rag_cfg.enabled) (
          field (codes "hits") (found_values (map hit_fields hits))
            (field (codes "context") (text (render_context_block deps.show_float hits)) end))))

  unfoldable pub handle_rag_retrieve :
      (is_post : Bool) → Decoded Text → Server → World deps → Response × World deps
  unfolding retrieved error_body
  handle_rag_retrieve false query s w = (post_only, w)
  handle_rag_retrieve true (malformed e) s w = (json 400 (error_body (codes "query required")), w)
  handle_rag_retrieve true (decoded query) s w =
      let (hits, w') = retrieve (rag_service deps) s.rag_cfg query w in
      if is_empty query
      then (json 400 (error_body (codes "query required")), w)
      else (retrieved s hits, w')

  continuation_answer : Option Continuation → Response
  continuation_answer none = panicked
  continuation_answer (some c) = ok_json (
      object (
        field (codes "prompt") (text c.prompt)
          (field (codes "compaction") (object c.compaction) end)))

  unfoldable pub handle_continuation :
      (is_post : Bool) → Decoded ContinuationBody → Server → Response
  unfolding continuation_answer error_body
  handle_continuation false body s = post_only
  handle_continuation true (malformed e) s =
      json 400 (error_body (codes "session_id and followup required"))
  handle_continuation true (decoded body) s =
      if is_empty body.session_id || is_empty body.followup
      then json 400 (error_body (codes "session_id and followup required"))
      else continuation_answer
          (build_continuation deps.to_int s.sessions.doc body.session_id body.followup body.policy)
