-- ===== src/Agent/Stream/Quiet.antt =====
-- A stream of an agent outside a dispatch.
use cofiswarm_dispatch.Prelude.{Text, Bool, some, ◌≡◌, refl}
use cofiswarm_dispatch.Backend.Router.{Router}
use cofiswarm_dispatch.Backend.Router.Choose.Sound.{resolve_total}
use cofiswarm_dispatch.Backend.Router.Quiet.{IsQuiet, should_route_quiet}
use cofiswarm_dispatch.Agent.{Agent, to_backend}
use cofiswarm_dispatch.Agent.Client.{Client}
use cofiswarm_dispatch.Agent.Stream.{StreamNet, Streamed, stream, stream_routed}

-- A stream returns, and the router is as it was.
pub stream_quiet :
    (net : StreamNet) (metal : Bool) (c : Client) (a : Agent) (s p : Text) (cancelled : Bool)
    (r : Router) (w : net.World)
    → IsQuiet r
    → (out : Streamed × Router × net.World) × (stream net metal c a s p cancelled r w ≡ some out)
      × (out.1 ≡ r)
unfolding stream stream_routed
stream_quiet net metal c a s p cancelled r w q =
    let (d, resolved, _) = resolve_total metal r (to_backend a) in
    (
      stream_routed net c a s p cancelled d r w,
      rw (resolved, stream),
      rw (should_route_quiet r q) refl,
    )
