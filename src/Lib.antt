-- ===== src/Lib.antt =====
-- cofiswarm-dispatch: a service that routes prompts to local inference backends, keeps a log of runs,
-- reflects over it and synthesizes one answer from many.
--
-- The parts, and where the program has them:
--   Backend            internal/backend/backend.go: `ID`, `Name`, `FromName`, `Supports`.
--   Backend/Router     internal/backend/router.go: the state, `ConfigureFromStartup`, `SetContext`,
--                      `ClearContext`, `ShouldRoute`; Router/Choose: `Resolve`, `pickAuto`,
--                      `fasterProbe`, `Materialize`; Router/Record: `RecordDecision`,
--                      `RecordProbeSample`, `SnapshotDecisions`.
--   History            internal/history/store.go: `New`, `Load`, `Save`, `Append`, `Search`, `Since`;
--                      History/Race: `Append` of two goroutines as sequences of steps;
--                      History/Episode: internal/history/episode.go, `AsEpisode`, `Salient`, `clip`.
--   Reflect            internal/reflect/reflect.go: `Reflect`, `parseLessons`; Reflect/Pass:
--                      internal/reflect/pass.go and scheduler.go, `Pass`, `FileCursor`, `Tick`;
--                      Reflect/Pass/Scheduler: `NewScheduler` and `Run` beside the handlers' appends;
--                      Reflect/Pass/Torn: a tick whose write of the cursor breaks off.
--   Agent              internal/agent/agent.go and the shaping of requests of client.go; Agent/Client:
--                      `CallWithSystem`, `tryFallback`, `completeOnce` and, from bus.go,
--                      `completeOnceBus`; Agent/Sse: internal/agent/stream_sse.go, the `sseDrainer`;
--                      Agent/Stream: internal/agent/stream.go, `Stream`, `drainStream`.
--   Synthesis          internal/synthesis/budget.go: `EffectiveMaxPromptChars`, `truncateNote`;
--                      Synthesis/Fit: internal/synthesis/assemble.go and the prompts;
--                      Synthesis/Tiered: internal/synthesis/tiered.go, `ReducePairwise`.
--   Session            internal/session/text.go and tokens.go; Session/Importance, Session/Compaction and
--                      Session/Summarize: importance.go, compaction.go and summarize.go there;
--                      Session/Store: internal/session/store.go, `AppendRun`, `New`, `Load`, `Save`;
--                      Session/Context: internal/session/context.go, `BuildContinuation`.
--   Stream             internal/stream/sse.go and flat_replay.go: `Emit`, `EmitFlatReplay`, `EmitError`.
--   Roster             internal/httpapi/roster_rag.go: `mergeRosterRAG`, `withRAGModeConfig`.
--   Rag                internal/rag: `Retrieve`, `HealthCheck`, `PutMemory`, `RenderContextBlock`, settings.
--   Prepare            internal/prepare/prepare.go: `Request`, `Parse`; Prepare/Build: `BuildRAG`;
--                      Prepare/Stamp: `StampMeta`.
--   Registry           internal/registry/client.go: `FetchAgent`, `PutAgent`, the cached `Roster`.
--   Modes, Kvpool      internal/modes: `Execute`, `StreamRelay`, `ActiveMode`; internal/kvpool: `Admit`.
--   Httpapi            internal/httpapi/server.go: `New` with its eviction hook, `effectivePrompt`, `gateKV`,
--                      `withRoutingContext`; Httpapi/Architect: `handleArchitect`; Httpapi/Relay:
--                      `handleArchitectStream`; Httpapi/Routes: the routes of history, backends, retrieval
--                      and sessions (Routes/Services); Httpapi/Agents: agent_routes.go; Httpapi/Reflection: reflect_tick.go,
--                      with `agentCompleter` and `ragMemorySink` in Reflection/Adapters; Httpapi/Mux and
--                      Httpapi/Serve: `Handler`, every route and its handler; Httpapi/Run: requests and ticks of
--                      the reflection one after another; Httpapi/Overlap: two dispatches at once.
--   Compat             internal/compat/routes.go: the old routes.
--   Command            cmd/cofiswarm-dispatch/main.go: the start over the files of the state root, and the end.
--   Disk, Json, Http   files, documents and exchanges as these parts see them.
--   Prelude            strings as lists of bytes, maps, decimals, UTF-8 and white space.
-- A module's children hold the proofs about it, and its Tests the concrete runs. A call of an agent
-- resolves its backend with the router, records the decision and the latency there, and may fall back
-- to the other backend; a reflection pass reads the history from a watermark, asks a model, puts lessons
-- into a memory and appends a summary row to the history; the reduction calls the synthesizer with
-- prompts that the assembly made; a run is appended to its session, whose weakest runs are then evicted
-- into a summary and handed to the history. A dispatch parses its request, merges the roster's targeting into
-- it, builds the prompt from the session and from retrieval, asks the budget gate, lets a mode service
-- execute it and appends the run; the handlers compose the other modules' functions for this. The command opens
-- the two stores, builds the server, and starts the reflection, which shares the router and the history with the
-- handlers.
--
-- State is passed explicitly: an operation takes the state and returns it. A method that holds a lock
-- is one step. `Resolve` locks three times, `Append` writes outside the lock, a tick takes minutes, and a
-- dispatch sets and clears the router's context: these four are also modelled with the steps of other goroutines in
-- between. A Go string is its list of bytes. An `int` is
-- a natural number, or a `ℤ` where the code tests for a negative one; sizes of texts are taken to
-- stay below 2 ^ 31, so that a body times the room does not overflow. The numbers of an agent and of a policy are any
-- ints: times 4 and times 1000 they wrap around (`wrap`), and a prompt cut at a negative bound is a panic.
-- A `float64` is its bits; its order is defined on them, and its rounding operations are parameters.
--
-- Parameters, for what is not in the repository: two records `Codec` (JSON of the history and of the
-- session file), `lower` (`strings.ToLower`), `Services` (the reflector model, the memory and the JSON
-- of lessons), `Net` (HTTP and the JSON of answers), `FloatOps` (rounding), `delta` (the JSON of a
-- stream frame), `Caller` (the synthesizer), `Sink` (the response writer), `Service` and `Registry` (the two
-- services and their JSON), `Network` (HTTP), `Formats` (the JSON of mode services), `StreamNet`; `Deps`
-- gathers what the handlers need of these, with `%q`, `%g` and the conversion of a float64 to an int, and
-- `Moment` what one request finds: times, new ids, and how writes end; `redirect` is net/http's multiplexer where it
-- redirects a request by itself.
-- Fuel: the decimal printer takes one step for each digit and `suc n` for the number n; a drain takes one
-- for each frame and the length of the buffer with one more, and each frame takes two bytes; the two
-- attempts of a call and the 65 rounds of the reduction are the bounds of the code itself.
--
-- Not modelled: listening, goroutines, signals and the draining of requests in the command; HTTP headers;
-- logging and pauses, which change no modelled state; the creation of directories, which is part of a write; the
-- C++ coordinator under legacy.
pub mod Agent
pub mod Backend
pub mod Command
pub mod Compat
pub mod Disk
pub mod History
pub mod Http
pub mod Httpapi
pub mod Json
pub mod Kvpool
pub mod Modes
pub mod Prelude
pub mod Prepare
pub mod Rag
pub mod Reflect
pub mod Registry
pub mod Roster
pub mod Session
pub mod Stream
pub mod Synthesis
