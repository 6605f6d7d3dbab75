-- ===== src/Httpapi/Reflection/Adapters.antt =====
-- internal/httpapi/reflect_tick.go: `agentCompleter` and `ragMemorySink`, which give the reflection its model and
-- its memory, and the scheduler's options.
pub mod Refused
use cofiswarm_dispatch.Prelude.{Text, Bool, true, false, Option, none, some, List, []}
use cofiswarm_dispatch.Agent.{Agent}
use cofiswarm_dispatch.Agent.Client.{Net, Client, call_with_system}
use cofiswarm_dispatch.Backend.Router.{Router}
use cofiswarm_dispatch.Rag.{Settings, Failure}
use cofiswarm_dispatch.Reflect.{Lesson, Services}
use cofiswarm_dispatch.Reflect.Pass.Scheduler.{SchedulerOpts, new_scheduler}
use cofiswarm_dispatch.Httpapi.{Deps, World}
use cofiswarm_dispatch.Httpapi.Reflection.{Started, put_lesson}

-- `NewScheduler` as it is called.
unfoldable pub scheduler_of : Started → SchedulerOpts
scheduler_of started = new_scheduler (record {
  interval = started.interval;
  max_episodes = started.max_episodes;
  max_chars = started.max_chars;
})

is_stored : Option Failure → Bool
is_stored none = true
is_stored (some e) = false

module _ (deps : Deps) (net : Net) (metal : Bool) (client : Client) (cfg : Settings)
    (a : Agent) where
  -- The router that all calls share, the agents' network and the rest of the network. `none`: a panic has
  -- ended the process.
  abbrev pub Alive : Type 0
  Alive = Option (Router × net.World × World deps)

  unfoldable pub completed : World deps → Option Text × Router × net.World → Text × Alive
  completed d (none, r, w) = ([], none)
  completed d (some answer, r, w) = (answer, some (r, w, d))

  -- `agentCompleter.Complete`.
  unfoldable pub complete : (system user : Text) → Alive → Text × Alive
  unfolding completed
  complete system user none = ([], none)
  complete system user (some (r, w, d)) =
      completed d (call_with_system net deps.ops metal client a system user r w)

  -- `ragMemorySink.Put`.
  unfoldable pub put : Lesson → Alive → Bool × Alive
  unfolding is_stored
  put l none = (false, none)
  put l (some (r, w, d)) =
      let (failure, d') = put_lesson deps cfg l.kind l.text l.id d in
      (is_stored failure, some (r, w, d'))

  abbrev pub reflect_services : (unmarshal : Text → Option (List Lesson)) → Services
  reflect_services unmarshal = record {
    World = Alive;
    complete = complete;
    put = put;
    unmarshal = unmarshal;
  }
