-- ===== src/Httpapi/Outside.antt =====
-- A request over HTTP, what the handlers rest on, and the answers: the types of `Handler`.
use cofiswarm_dispatch.Prelude.{Text, codes, Bool, Option, List}
use cofiswarm_dispatch.Json.{Value, Fields}
use cofiswarm_dispatch.Agent.Client.{Net, Client}
use cofiswarm_dispatch.Agent.Stream.{StreamNet}
use cofiswarm_dispatch.Stream.{Sink}
use cofiswarm_dispatch.Reflect.{Lesson}
use cofiswarm_dispatch.Compat.{Read}
use cofiswarm_dispatch.Httpapi.{Deps, Response, plain}
use cofiswarm_dispatch.Httpapi.Relay.{Ending}
use cofiswarm_dispatch.Httpapi.Routes.{Decoded, ResolveBody}
use cofiswarm_dispatch.Httpapi.Routes.Services.{ContinuationBody}
use cofiswarm_dispatch.Httpapi.Agents.{CallBody, StreamAnswer}

-- `query` reads a parameter of the URL.
pub record HttpRequest : Type 0 where
  pub path : Text
  pub method : Text
  pub query : (key : Text) → Text
  pub body : Text
  pub can_flush : Bool
  pub cancelled : Bool

-- What the handlers rest on beside `Deps`: the agents' networks, the connection, the decoding of each body, the
-- file system of the old routes and the host. `redirect` is where net/http's multiplexer itself sends a request whose
-- path it does not take as it is, such as one with two slashes in a row. `entry_error` is the error of a write of the history's file.
pub record Outside : Type 1 where
  pub deps : Deps
  pub net : Net
  pub stream_net : StreamNet
  pub sink : Sink
  pub client : Client
  pub redirect : (method path : Text) → Option Text
  pub goos : Text
  pub goarch : Text
  pub first_key : Fields → Text
  pub entry : Text → Decoded Fields
  pub entry_error : Text
  pub to_resolve : Text → Decoded ResolveBody
  pub call : Text → Decoded CallBody
  pub rag_query : Text → Decoded Text
  pub continuation : Text → Decoded ContinuationBody
  pub join : List Text → Text
  pub read_file : Text → Read
  pub groups : Text → Option (List Text)
  pub endpoints : Text → Value
  pub unmarshal : Text → Option (List Lesson)

-- A whole answer, a redirection, the end of a stream of a mode, or that of a stream of an agent.
pub data Answer : Type 0 where
  replied : Response → Answer
  redirected : (url : Text) → Answer
  streamed : Ending → Answer
  agent_streamed : StreamAnswer → Answer

abbrev pub not_found : Answer
not_found = replied (plain 404 (codes "404 page not found"))
