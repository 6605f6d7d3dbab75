-- ===== src/Prepare/Stamp.antt =====
-- `StampMeta`: the notes stamped on the answer.
use cofiswarm_dispatch.Prelude.{Text, codes, is_empty, Option, none, some, if◌then◌else◌}
use cofiswarm_dispatch.Prelude.Float.{Float64}
use cofiswarm_dispatch.Json.{
  yes_value, float, text, object, Fields, end, field, lookup, insert, as_object, json_string,
}
use cofiswarm_dispatch.Prepare.{Request, RagResult, bool_value}

unfoldable pub target_agent : Request → Text
target_agent req =
    let t = json_string req.context_policy (codes "target_agent") in
    if is_empty t then codes "programmer" else t

or_new : Option Fields → Fields
or_new none = end
or_new (some m) = m

stamp_option : Text → Option Fields → Fields → Fields
stamp_option key none m = m
stamp_option key (some v) m = insert key (object v) m

stamp_routing : Fields → Fields → Fields
stamp_routing end m = m
stamp_routing (field k v r) m = insert (codes "routing") (object (field k v r)) m

-- The meta of an answer, after it.
unfoldable pub stamped :
    Request → RagResult → (compaction : Option Fields) → Float64 → Fields → Fields → Fields
unfolding stamp_option stamp_routing
stamped req res compaction wall_ms routing meta =
    let m = insert (codes "wall_ms") (float wall_ms) (
      insert (codes "followup") (bool_value req.followup) (
        insert (codes "run_id") (text req.run_id)
          (insert (codes "session_id") (text req.session_id) meta))) in
    let m1 = stamp_option (codes "rag") res.rag_meta m in
    let pass =
      object
        (field (codes "used") yes_value (field (codes "target") (text (target_agent req)) end)) in
    let m2 = if req.quality_pass then insert (codes "quality_pass") pass m1 else m1 in
    let m3 =
      if is_empty req.parent_run_id
      then m2
      else insert (codes "parent_run_id") (text req.parent_run_id) m2 in
    stamp_routing routing
      (if req.followup then stamp_option (codes "compaction") compaction m3 else m3)

unfoldable pub stamp_meta :
    Fields → Request → RagResult → (compaction : Option Fields) → Float64 → Fields → Fields
unfolding or_new
stamp_meta envelope req res compaction wall_ms routing =
    insert (codes "meta")
      (object (
        stamped req res compaction wall_ms routing
          (or_new (as_object (lookup (codes "meta") envelope)))))
      envelope
