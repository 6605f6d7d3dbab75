-- ===== src/Httpapi/Run/Calls.antt =====
-- Calls of agents and ticks of the reflection on a quiet router.
use cofiswarm_dispatch.Prelude.{
  Text, is_empty, Bool, true, false, Option, none, some, ◌⊎◌, ◌≡◌, refl, inl, inr, Bool-cases,
  Option-cases,
}
use cofiswarm_dispatch.Disk.{File, Write}
use cofiswarm_dispatch.Backend.Router.{Router, set_context, apple_silicon_metal_available}
use cofiswarm_dispatch.Backend.Router.Choose.{resolve}
use cofiswarm_dispatch.Backend.Router.Quiet.{IsQuiet, clear_context-IsQuiet}
use cofiswarm_dispatch.Agent.{Agent}
use cofiswarm_dispatch.Agent.Client.{Net, Client, call_with_system}
use cofiswarm_dispatch.Agent.Client.Quiet.{call_with_system-IsQuiet}
use cofiswarm_dispatch.Agent.Stream.Quiet.{stream_quiet}
use cofiswarm_dispatch.Agent.Stream.{StreamNet}
use cofiswarm_dispatch.Prelude.Float.{FloatOps}
use cofiswarm_dispatch.History
use cofiswarm_dispatch.Rag.{Settings}
use cofiswarm_dispatch.Reflect.{Lesson}
use cofiswarm_dispatch.Reflect.Pass.Worlds.{tick-Q}
use cofiswarm_dispatch.Stream.{Sink}
use cofiswarm_dispatch.Httpapi.{Server, Deps, World}
use cofiswarm_dispatch.Httpapi.Agents.{
  CallBody, is_incomplete, system_of, answered, handle_agent_call, handle_agent_stream,
}
use cofiswarm_dispatch.Httpapi.Routes.{
  Decoded, malformed, decoded, ResolveBody, resolve_inside, handle_resolve,
}
use cofiswarm_dispatch.Httpapi.Outside.{Outside}
use cofiswarm_dispatch.Httpapi.Run.{router_after, tick_on}
use cofiswarm_dispatch.Httpapi.Reflection.{Started}
use cofiswarm_dispatch.Httpapi.Reflection.Adapters.{
  Alive, completed, complete, put, scheduler_of, reflect_services,
}

module _ (net : Net) (ops : FloatOps) where
  answered-IsQuiet :
      (body : CallBody) (res : Option Text × Router × net.World)
      → IsQuiet res.1
      → IsQuiet (answered net ops body res).1
  unfolding answered
  answered-IsQuiet body (none, r, w) q = q
  answered-IsQuiet body (some t, r, w) q = q

  pub call-IsQuiet :
      (metal : Bool) (c : Client) (is_post : Bool) (body : Decoded CallBody) (r : Router)
      (w : net.World)
      → IsQuiet r
      → IsQuiet (handle_agent_call net ops metal c is_post body r w).1
  unfolding handle_agent_call
  call-IsQuiet metal c false body r w q = q
  call-IsQuiet metal c true (malformed e) r w q = q
  call-IsQuiet metal c true (decoded body) r w q = elim (Bool-cases (is_incomplete body)) [
    | inl e ↦ rw e q
    | inr e ↦ rw e (
        answered-IsQuiet body
          (call_with_system net ops metal c body.agent (system_of body) body.prompt r w)
          (call_with_system-IsQuiet net ops metal c body.agent (system_of body) body.prompt r w q))
  ]

pub stream-IsQuiet :
    (net : StreamNet) (sink : Sink) (metal : Bool) (c : Client) (can_flush is_post cancelled : Bool)
    (body : Decoded CallBody) (r : Router) (conn : sink.World) (w : net.World)
    → IsQuiet r
    → IsQuiet (handle_agent_stream net sink metal c can_flush is_post cancelled body r conn w).1
unfolding handle_agent_stream
stream-IsQuiet net sink metal c can_flush false cancelled body r conn w q = q
stream-IsQuiet net sink metal c can_flush true cancelled (malformed e) r conn w q = q
stream-IsQuiet net sink metal c can_flush true cancelled (decoded body) r conn w q =
    let (out, returned, same) =
      stream_quiet net metal c body.agent (system_of body) body.prompt cancelled r w q in
    elim (Bool-cases (is_incomplete body)) [
      | inl e ↦ rw e q
      | inr e ↦ elim (Bool-cases can_flush) [
        | inl f ↦ rw (e, f, returned, same) q
        | inr f ↦ rw (e, f) q
      ]
    ]

pub resolve-IsQuiet :
    (metal is_post : Bool) (body : Decoded ResolveBody) (r : Router)
    → IsQuiet r
    → IsQuiet (handle_resolve metal is_post body r).1
unfolding handle_resolve resolve_inside
resolve-IsQuiet metal false body r q = q
resolve-IsQuiet metal true (malformed e) r q = q
resolve-IsQuiet metal true (decoded body) r q =
    let inside = set_context body.context r in
    elim (Bool-cases (is_empty body.agent.name)) [
      | inl e ↦ rw e q
      | inr e ↦ elim (Option-cases (resolve metal inside body.agent)) [
        | inl f ↦ rw (e, f, resolve_inside) (clear_context-IsQuiet inside)
        | inr (d, f) ↦ rw (e, f, resolve_inside) (clear_context-IsQuiet _)
      ]
    ]

module _ (deps : Deps) (net : Net) (metal : Bool) (client : Client) (cfg : Settings)
    (a : Agent) where
  -- The process has ended in a panic, or its router is quiet.
  abbrev IsCalm : Alive deps net metal client cfg a → Type 0
  IsCalm x =
      (x ≡ none)
      ⊎ ((r : Router) × (w : net.World) × (d : World deps) × (x ≡ some (r, w, d)) × IsQuiet r)

  completed-IsCalm :
      (d : World deps) (res : Option Text × Router × net.World)
      → IsQuiet res.1
      → IsCalm (completed deps net metal client cfg a d res).1
  unfolding completed
  completed-IsCalm d (none, r, w) q = inl refl
  completed-IsCalm d (some t, r, w) q = inr (r, w, d, refl, q)

  complete-IsCalm :
      (system user : Text) (x : Alive deps net metal client cfg a)
      → IsCalm x
      → IsCalm (complete deps net metal client cfg a system user x).1
  unfolding complete
  complete-IsCalm system user x (inl ended) = rw (ended, complete) (inl refl)
  complete-IsCalm system user x (inr (r, w, d, so, q)) =
      rw (so, complete)
        (completed-IsCalm d (call_with_system net deps.ops metal client a system user r w)
          (call_with_system-IsQuiet net deps.ops metal client a system user r w q))

  put-IsCalm :
      (l : Lesson) (x : Alive deps net metal client cfg a)
      → IsCalm x
      → IsCalm (put deps net metal client cfg a l x).1
  unfolding put
  put-IsCalm l x (inl ended) = rw (ended, put) (inl refl)
  put-IsCalm l x (inr (r, w, d, so, q)) = rw (so, put) (inr (r, w, _, refl, q))

module _ (o : Outside) where
  router_after-IsQuiet :
      (metal : Bool) (cfg : Settings) (a : Agent) (x : Alive o.deps o.net metal o.client cfg a)
      (r : Router)
      → IsCalm o.deps o.net metal o.client cfg a x
      → IsQuiet r
      → IsQuiet (router_after o x r)
  unfolding router_after
  router_after-IsQuiet metal cfg a x r (inl ended) quiet = rw ended quiet
  router_after-IsQuiet metal cfg a x r (inr (r', w, d, so, q)) quiet = rw so q

  pub tick_on-IsQuiet :
      (started : Started) (w w' : Write) (cursor : File) (agents : o.net.World)
      (services : World o.deps) (s : Server) (h : History.Store)
      → IsQuiet s.router
      → IsQuiet
          (router_after o (tick_on o started w w' cursor agents services s h).0.world s.router)
  unfolding tick_on
  tick_on-IsQuiet started w w' cursor agents services s h q =
      let metal = apple_silicon_metal_available o.goos o.goarch in
      let a = started.reflector in
      let opts = scheduler_of started in
      router_after-IsQuiet metal s.rag_cfg a _ s.router
        (tick-Q (reflect_services o.deps o.net metal o.client s.rag_cfg a o.unmarshal)
          (IsCalm o.deps o.net metal o.client s.rag_cfg a)
          (complete-IsCalm o.deps o.net metal o.client s.rag_cfg a)
          (put-IsCalm o.deps o.net metal o.client s.rag_cfg a) o.deps.history_codec w w' h cursor
          opts.max_episodes opts.max_chars (some (s.router, agents, services))
          (inr (s.router, agents, services, refl, q)))
        q
