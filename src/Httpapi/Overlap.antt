-- ===== src/Httpapi/Overlap.antt =====
-- `withRoutingContext` of two requests at once. The router is shared, and each of its methods locks it by itself, so
-- the steps of two requests come in any order: each sets the context, calls go on inside, and each clears it.
use cofiswarm_dispatch.Prelude.{Text, Bool, true, false, List, [], ◌∷◌, ◌≡◌, Bool-cases, inl, inr}
use cofiswarm_dispatch.Prelude.Float.{Float64, FloatOps}
use cofiswarm_dispatch.Json.{end}
use cofiswarm_dispatch.Backend.Router.{Router, is_enabled, should_route}
use cofiswarm_dispatch.Backend.Router.Quiet.{IsQuiet, clear_context-IsQuiet, should_route_quiet}
use cofiswarm_dispatch.Backend.Router.Record.{snapshot_decisions}
use cofiswarm_dispatch.Agent.Client.{Net, Client}
use cofiswarm_dispatch.Httpapi.{enter_context, leave_context, snapshot_fields}
use cofiswarm_dispatch.Httpapi.Agents.{CallBody, handle_agent_call}
use cofiswarm_dispatch.Httpapi.Routes.{Decoded}
use cofiswarm_dispatch.Httpapi.Run.Calls.{call-IsQuiet}

-- The decisions that a dispatch puts into its envelope, from a quiet router.
leave_context_quiet : (r : Router) → IsQuiet r → (leave_context r).0 ≡ end
unfolding leave_context is_enabled snapshot_decisions snapshot_fields
leave_context_quiet r q = elim (Bool-cases r.enabled) [
  | inl e ↦ rw (e, q.no_decisions)
  | inr e ↦ rw e
]

module _ (net : Net) (ops : FloatOps) (metal : Bool) (client : Client) where
  -- Requests to `/api/agent/call`, each with the network that it finds.
  unfoldable pub call_all : List (Decoded CallBody × net.World) → Router → Router
  call_all [] r = r
  call_all ((body, w) ∷ calls) r =
      call_all calls (handle_agent_call net ops metal client true body r w).1

  call_all-IsQuiet :
      (calls : List (Decoded CallBody × net.World)) (r : Router)
      → IsQuiet r
      → IsQuiet (call_all calls r)
  unfolding call_all
  call_all-IsQuiet [] r q = q
  call_all-IsQuiet ((body, w) ∷ calls) r q =
      call_all-IsQuiet calls _ (call-IsQuiet net ops metal client true body r w q)

  -- A dispatch during which another one starts and ends, with calls of agents before, inside and after the other,
  -- on any router and networks: when the other has ended, the calls that follow are not routed, and the first
  -- dispatch reports no decision at all, not even those that were made before the other started.
  pub overlap_lost :
      (mode mode' : Text) (pressure pressure' : Float64)
      (before inside after : List (Decoded CallBody × net.World)) (r : Router)
      → let first = call_all before (enter_context mode pressure r) in
        let second = call_all inside (enter_context mode' pressure' first) in
        let rest = call_all after (leave_context second).1 in
        (should_route (leave_context second).1 ≡ false)
        × (should_route rest ≡ false)
        × ((leave_context rest).0 ≡ end)
  unfolding leave_context
  overlap_lost mode mode' pressure pressure' before inside after r =
      let first = call_all before (enter_context mode pressure r) in
      let second = call_all inside (enter_context mode' pressure' first) in
      let left = clear_context-IsQuiet second in
      let rest = call_all-IsQuiet after (leave_context second).1 left in
      (should_route_quiet _ left, should_route_quiet _ rest, leave_context_quiet _ rest)
