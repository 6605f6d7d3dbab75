-- ===== src/Httpapi/Run.antt =====
-- The server between its start and its end: requests, one after another, and the ticks of the reflection, which
-- share the router and the history with them.
pub mod Good
pub mod Log
pub mod Calls
pub mod Quiet
pub mod Tests
use cofiswarm_dispatch.Prelude.{Bool, Option, none, some, List, [], ◌∷◌}
use cofiswarm_dispatch.Disk.{File, Write}
use cofiswarm_dispatch.Backend.Router.{Env, Router, apple_silicon_metal_available}
use cofiswarm_dispatch.History
use cofiswarm_dispatch.Reflect.Pass.{Passed, tick}
use cofiswarm_dispatch.Reflect.Pass.Scheduler.{SchedulerOpts}
use cofiswarm_dispatch.Httpapi.{Server, Moment, World}
use cofiswarm_dispatch.Httpapi.Reflection.{Started}
use cofiswarm_dispatch.Httpapi.Reflection.Adapters.{Alive, scheduler_of, reflect_services}
use cofiswarm_dispatch.Httpapi.Outside.{Outside, HttpRequest}
use cofiswarm_dispatch.Httpapi.Serve.{Worlds, serve}

module _ (o : Outside) where
  -- The router after a reflection; a panic leaves no process to use it.
  unfoldable pub router_after : Option (Router × o.net.World × World o.deps) → Router → Router
  router_after none r = r
  router_after (some (r', agents, services)) r = r'

  -- A tick on the server's history; `w` and `w'` are the writes of the history and of the cursor.
  unfoldable pub tick_on :
      Started
      → Write
      → Write
      → (cursor : File) → o.net.World
      → World o.deps
      → Server
      → History.Store
      → Passed (Option (Router × o.net.World × World o.deps)) × File
  tick_on started w w' cursor agents services s h =
      let opts = scheduler_of started in
      tick
        (reflect_services o.deps o.net (apple_silicon_metal_available o.goos o.goarch) o.client
          s.rag_cfg started.reflector o.unmarshal)
        o.deps.history_codec w w' h cursor opts.max_episodes opts.max_chars
        (some (s.router, agents, services))

  unfoldable pub tick_server :
      Started → Write → Write → (cursor : File) → o.net.World → World o.deps → Server → Server
  unfolding router_after
  tick_server started w w' cursor agents services s = elim s.history [
    | none ↦ s
    | some h ↦
        let (p, cursor') = tick_on started w w' cursor agents services s h in
        record s { history = some p.store; router = router_after p.world s.router }
  ]

  -- What happens to the server, with what the networks, the clock and the disk are at that moment.
  pub data Event : Type 0 where
    request : Moment → HttpRequest → Worlds o → Event
    ticked : Started → Write → Write → (cursor : File) → o.net.World → World o.deps → Event

  unfoldable pub step : Env → Event → Server → Server
  step env (request moment req ws) s = (serve o env moment req s ws).server
  step env (ticked started w w' cursor agents services) s =
      tick_server started w w' cursor agents services s

  unfoldable pub run : Env → List Event → Server → Server
  run env [] s = s
  run env (e ∷ es) s = run env es (step env e s)
