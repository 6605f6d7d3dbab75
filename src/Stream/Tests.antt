-- ===== src/Stream/Tests.antt =====
-- A replay over a connection that breaks after three frames.
use cofiswarm_dispatch.Prelude.{Text, codes, [], ◌≡◌}
use cofiswarm_dispatch.Json.{Value}
use cofiswarm_dispatch.Stream.{emit_flat_replay}
use cofiswarm_dispatch.Stream.Frames.{breaking, replay_frames, received, emit_flat_replay-received}

abbrev blank : Value → Text
blank v = codes "{}"

emit_flat_replay-received_example :
    emit_flat_replay (breaking blank) (codes "sess_1") (codes "coder") (codes "Hello there") (3, [])
    ≡ received blank 3 []
        (replay_frames blank (codes "sess_1") (codes "coder") (codes "Hello there"))
emit_flat_replay-received_example =
    emit_flat_replay-received blank (codes "sess_1") (codes "coder") (codes "Hello there") 3
