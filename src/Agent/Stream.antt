-- ===== src/Agent/Stream.antt =====
-- internal/agent/stream.go and, from bus.go, `busStreamRequest`: a completion that is streamed. The network
-- is a parameter, and so is the JSON of a frame. (Unmarshalling the body that was just marshalled does not
-- fail, so that branch has no case. A cancellation shows as a connection or a read that fails.)
pub mod Drain
pub mod Quiet
use cofiswarm_dispatch.Prelude.{
  Text, codes, text_eq, is_empty, Bool, true, false, not, Option, none, some, List, [], ◌∷◌, ◌++◌,
  if◌then◌else◌,
}
use cofiswarm_dispatch.Prelude.Decimal.{ℤ}
use cofiswarm_dispatch.Prelude.Utf8.{to_valid_utf8}
use cofiswarm_dispatch.Backend.Router.{Router, Decision, should_route}
use cofiswarm_dispatch.Backend.Router.Choose.{resolve}
use cofiswarm_dispatch.Backend.Router.Record.{record_decision}
use cofiswarm_dispatch.Agent.{
  Agent, Message, to_backend, with_engine, materialized_engine, decimal, not_responding,
  llama_stops, strip_template_leakage,
}
use cofiswarm_dispatch.Agent.Sse.{Drainer, new_drainer, feed, flush}
use cofiswarm_dispatch.Agent.Client.{Client, model_subject, bus_timeout_ms}

unfoldable pub mlx_stream_stops : List Text
mlx_stream_stops =
    codes "<|im_end|>" ∷ codes "<|im_start|>" ∷ codes "<|eot_id|>" ∷ codes "<|endoftext|>" ∷ []

-- A body with `stream` set.
pub record StreamBody : Type 0 where
  pub messages : List Message
  pub max_tokens : ℤ
  pub stop : List Text
  pub cache_prompt : Bool
  pub include_usage : Bool

unfoldable pub stream_body : Agent → (sys prompt : Text) → StreamBody
unfolding mlx_stream_stops
stream_body a sys prompt =
    let user : Message = record { role = codes "user"; content = prompt } in
    let mlx = text_eq a.engine (codes "mlx") in
    record {
      messages =
          if is_empty sys
          then user ∷ []
          else record { role = codes "system"; content = sys } ∷ user ∷ [];
      max_tokens = a.max_tokens;
      stop = if mlx then mlx_stream_stops else llama_stops;
      cache_prompt = not mlx;
      include_usage = not mlx;
    }

pub data StreamRequest : Type 0 where
  direct : (url : Text) → StreamBody → StreamRequest
  bus : (url subject : Text) → StreamBody → (timeout_ms : ℤ) → StreamRequest

unfoldable pub bus_stream_request : Client → Agent → StreamBody → StreamRequest
bus_stream_request c a body =
    bus (c.bus_url ++ codes "/v1/request/stream") (model_subject a.port) body (bus_timeout_ms a)

unfoldable pub stream_request : Client → Agent → StreamBody → StreamRequest
unfolding bus_stream_request
stream_request c a body =
    if is_empty c.bus_url
    then direct
        (codes "http://" ++ c.host ++ codes ":" ++ decimal a.port ++ codes "/v1/chat/completions")
        body
    else bus_stream_request c a body

-- A body is read up to the first read with an error, the end of the file or another: the bytes of the
-- reads before it, and those that it brings.
pub record Reads : Type 0 where
  pub before_end : List Text
  pub at_end : Text

-- The request cannot be built, the connection fails, or there is a body, whatever its status.
pub data Opened : Type 0 where
  unbuilt refused : Opened
  opened : Reads → Opened

pub record StreamNet : Type 1 where
  pub World : Type 0
  pub open_stream : StreamRequest → World → Opened × World
  -- The content of the first choice's delta in a frame.
  pub delta : Text → Option Text

-- What a call returns, and the calls of `onChunk` in order.
pub record Streamed : Type 0 where
  pub returned : Text
  pub told : List Text

module _ (delta : Text → Option Text) where
  -- A read that brings nothing is not fed.
  unfoldable pub feed_read : Drainer → Text → Drainer
  feed_read d bytes = if is_empty bytes then d else feed delta d bytes

  read_loop : List Text → Text → Drainer → Drainer
  unfolding feed_read
  read_loop [] at_end d = feed_read d at_end
  read_loop (bytes ∷ more) at_end d =
      let d' = feed_read d bytes in
      let rest = read_loop more at_end d' in if d'.done then d' else rest

  unfoldable pub drain_stream : Reads → Streamed
  unfolding read_loop
  drain_stream reads =
      let d = flush delta (read_loop reads.before_end reads.at_end new_drainer) in
      record { returned = strip_template_leakage d.acc; told = d.chunks }

  -- `cancelled`: whether the cancel channel is closed by then.
  unfoldable pub streamed : Agent → (cancelled : Bool) → Opened → Streamed
  unfolding drain_stream
  streamed a cancelled unbuilt = record { returned = not_responding a; told = [] }
  streamed a cancelled refused =
      if cancelled
      then record { returned = []; told = [] }
      else record { returned = not_responding a; told = not_responding a ∷ [] }
  streamed a cancelled (opened reads) = drain_stream reads

module _ (net : StreamNet) where
  open net use {World, open_stream, delta}

  -- Once the router has decided.
  stream_routed :
      Client
      → Agent
      → (system prompt : Text) → (cancelled : Bool) → Decision
      → Router
      → World
      → Streamed × Router × World
  unfolding streamed
  stream_routed c a system prompt cancelled routing r w =
      let work = with_engine a (materialized_engine routing.backend) in
      let r' = if should_route r then record_decision a.name routing r else r in
      let body = stream_body work (to_valid_utf8 system) (to_valid_utf8 prompt) in
      let (res, w') = open_stream (stream_request c work body) w in
      (streamed delta a cancelled res, r', w')

  -- `Stream`; `none` is the panic of `Resolve`.
  unfoldable pub stream :
      Bool
      → Client
      → Agent
      → (system prompt : Text) → (cancelled : Bool) → Router
      → World
      → Option (Streamed × Router × World)
  unfolding stream_routed
  stream metal c a system prompt cancelled r w = elim (resolve metal r (to_backend a)) [
    | none ↦ none
    | some routing ↦ some (stream_routed c a system prompt cancelled routing r w)
  ]
