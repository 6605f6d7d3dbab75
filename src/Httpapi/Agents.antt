-- ===== src/Httpapi/Agents.antt =====
-- internal/httpapi/agent_routes.go: one agent called, or streamed, over HTTP.
use cofiswarm_dispatch.Prelude.{
  zero, Text, codes, is_empty, Bool, true, false, ◌||◌, Option, none, some, List, [], ◌∷◌,
  if◌then◌else◌,
}
use cofiswarm_dispatch.Prelude.Decimal.{ℤ, pos}
use cofiswarm_dispatch.Prelude.Float.{FloatOps}
use cofiswarm_dispatch.Json.{text, object, end, field}
use cofiswarm_dispatch.Agent.{Agent}
use cofiswarm_dispatch.Agent.Client.{Net, Client, call_with_system}
use cofiswarm_dispatch.Agent.Stream.{StreamNet, Streamed, stream}
use cofiswarm_dispatch.Backend.Router.{Router}
use cofiswarm_dispatch.Stream.{Sink}
use cofiswarm_dispatch.Httpapi.{Response, json, plain, panicked, post_only}
use cofiswarm_dispatch.Httpapi.Routes.{Decoded, malformed, decoded, error_body}

pub record CallBody : Type 0 where
  pub agent : Agent
  pub prompt : Text
  pub system_prompt : Text
  pub session_id : Text

is_zero : ℤ → Bool
is_zero (pos zero) = true
is_zero _ = false

unfoldable pub is_incomplete : CallBody → Bool
unfolding is_zero
is_incomplete body = is_empty body.agent.name || is_zero body.agent.port || is_empty body.prompt

unfoldable pub system_of : CallBody → Text
system_of body =
    if is_empty body.system_prompt then body.agent.system_prompt else body.system_prompt

abbrev required : Response
required = json 400 (error_body (codes "agent.name, agent.port and prompt required"))

call_answer : Text → Text → Response
call_answer name answer =
    json 200 (object (field (codes "agent") (text name) (field (codes "text") (text answer) end)))

module _ (net : Net) (ops : FloatOps) where
  open net use {World}

  unfoldable pub answered : CallBody → Option Text × Router × World → Response × Router × World
  unfolding call_answer
  answered body (none, r, w) = (panicked, r, w)
  answered body (some answer, r, w) = (call_answer body.agent.name answer, r, w)

  called : (metal : Bool) → Client → CallBody → Router → World → Response × Router × World
  unfolding answered
  called metal c body r w =
      answered body (call_with_system net ops metal c body.agent (system_of body) body.prompt r w)

  unfoldable pub handle_agent_call :
      (metal : Bool)
      → Client
      → (is_post : Bool) → Decoded CallBody
      → Router
      → World
      → Response × Router × World
  unfolding called
  handle_agent_call metal c false body r w = (post_only, r, w)
  handle_agent_call metal c true (malformed e) r w = (json 400 (error_body e), r, w)
  handle_agent_call metal c true (decoded body) r w =
      let res = called metal c body r w in if is_incomplete body then (required, r, w) else res

module _ (sink : Sink) where
  -- Writes whose errors are not looked at.
  write_all : List Text → sink.World → sink.World
  write_all [] c = c
  write_all (bytes ∷ more) c = write_all more (sink.write bytes c).1

  -- The writes of one call of `onChunk`.
  unfoldable pub chunk_writes : Text → List Text
  chunk_writes token =
      codes "data: "
      ∷ sink.marshal (object (field (codes "delta") (text token) end))
      ∷ codes "\n\n"
      ∷ []

  unfoldable pub on_chunks : List Text → sink.World → sink.World
  unfolding write_all chunk_writes
  on_chunks [] c = c
  on_chunks (token ∷ tokens) c = on_chunks tokens (write_all (chunk_writes token) c)

  unfoldable pub send_stream : Streamed → sink.World → sink.World
  unfolding on_chunks write_all
  send_stream res c = write_all (codes "data: [DONE]\n\n" ∷ []) (on_chunks res.told c)

-- An error before the stream, or the stream.
pub data StreamAnswer : Type 0 where
  rejected : Response → StreamAnswer
  sent : StreamAnswer

module _ (net : StreamNet) (sink : Sink) where
  open net use {World}

  sent_to :
      Router
      → sink.World
      → World
      → Option (Streamed × Router × World)
      → StreamAnswer × Router × sink.World × World
  sent_to r conn w none = (rejected panicked, r, conn, w)
  sent_to r conn w (some (res, r', w')) = (sent, r', send_stream sink res conn, w')

  streamed_to :
      (metal : Bool)
      → Client
      → (cancelled : Bool) → CallBody
      → Router
      → sink.World
      → World
      → StreamAnswer × Router × sink.World × World
  unfolding sent_to
  streamed_to metal c cancelled body r conn w =
      sent_to r conn w (stream net metal c body.agent (system_of body) body.prompt cancelled r w)

  unfoldable pub handle_agent_stream :
      (metal : Bool)
      → Client
      → (can_flush is_post cancelled : Bool) → Decoded CallBody
      → Router
      → sink.World
      → World
      → StreamAnswer × Router × sink.World × World
  unfolding streamed_to
  handle_agent_stream metal c can_flush false cancelled body r conn w =
      (rejected post_only, r, conn, w)
  handle_agent_stream metal c can_flush true cancelled (malformed e) r conn w =
      (rejected (json 400 (error_body e)), r, conn, w)
  handle_agent_stream metal c can_flush true cancelled (decoded body) r conn w =
      let res = streamed_to metal c cancelled body r conn w in
      if is_incomplete body
      then (rejected required, r, conn, w)
      else if can_flush
      then res
      else (rejected (plain 500 (codes "streaming unsupported")), r, conn, w)
