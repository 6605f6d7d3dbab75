-- ===== src/Agent/Client.antt =====
-- internal/agent/client.go and bus.go: one completion, over HTTP or over the bus, and a call with its
-- retries and its fallback. The network and the JSON of the answers are parameters. (Marshalling a
-- request does not fail, so that branch has no case; the pause between attempts changes no state.)
pub mod Attempts
pub mod Refused
pub mod Quiet
use cofiswarm_dispatch.Prelude.{
  ℕ, zero, suc, ◌+◌, ◌*◌, Text, codes, text_eq, is_empty, Bool, true, false, not, ◌&&◌, ◌||◌,
  Option, none, some, List, [], ◌∷◌, ◌++◌, ltb, leb, ◌==◌, if◌then◌else◌,
}
use cofiswarm_dispatch.Prelude.Decimal.{ℤ, pos, negsuc, wrap}
use cofiswarm_dispatch.Prelude.Float.{Float64, FloatOps}
use cofiswarm_dispatch.Prelude.Space.{trim_space, trim_right_slash}
use cofiswarm_dispatch.Prelude.Utf8.{to_valid_utf8}
use cofiswarm_dispatch.Backend.{BackendId, llama_metal, python_mlx, id_eq, name, supports}
use cofiswarm_dispatch.Backend.Router.{Env, Router, Decision, should_route}
use cofiswarm_dispatch.Backend.Router.Choose.{resolve}
use cofiswarm_dispatch.Backend.Router.Record.{record_decision, record_probe_sample}
use cofiswarm_dispatch.Agent.{
  Agent, Body, to_backend, with_engine, materialized_engine, probe_id, decimal, not_responding,
  strip_template_leakage, completion_body, cap_panics, is_positive,
}

pub data Request : Type 0 where
  direct : (url : Text) → Body → Request
  bus : (url subject : Text) → Body → (timeout_ms : ℤ) → Request

-- A failed call carries its error; an answer its status, its body and the time in milliseconds.
pub data Reply : Type 0 where
  no_connection : Text → Reply
  answer : (status : ℕ) → Text → Float64 → Reply

pub record Net : Type 1 where
  pub World : Type 0
  pub post : Request → World → Reply × World
  -- The contents of the choices; `none` if the body does not parse.
  pub choices : Text → Option (List Text)
  -- The structured error message, or the empty text.
  pub error_message : Text → Text

pub record AttemptResult : Type 0 where
  pub text : Text
  pub ok : Bool
  pub retryable : Bool

-- The inference host, and the bridge's URL or the empty text.
pub record Client : Type 0 where
  pub host : Text
  pub bus_url : Text

-- The bridge's URL is set only if bus routing is on.
unfoldable pub bus_route_url : Env → Text
bus_route_url env =
    if is_empty (env (codes "COFISWARM_ROUTE_BUS"))
    then []
    else (let base = env (codes "COFISWARM_BRIDGE_URL") in
        if is_empty base then [] else trim_right_slash base)

unfoldable pub new_client : Env → Client
unfolding bus_route_url
new_client env =
    let host = env (codes "COFISWARM_AGENT_HOST") in
    record { host = if is_empty host then codes "127.0.0.1" else host; bus_url = bus_route_url env }

unfoldable pub model_subject : ℤ → Text
model_subject port = codes "swarm.observer.model." ++ decimal port

times_1000 : ℤ → ℤ
times_1000 (pos n) = wrap (n * 1000)
times_1000 (negsuc n) = negsuc n

unfoldable pub bus_timeout_ms : Agent → ℤ
unfolding times_1000
bus_timeout_ms a =
    if is_positive a.read_timeout_secs then times_1000 a.read_timeout_secs else pos 120000

unfoldable pub request_of : Client → Agent → Text → Text → Request
unfolding model_subject bus_timeout_ms
request_of c a system prompt =
    let body = completion_body a system prompt in
    if is_empty c.bus_url
    then direct
        (codes "http://" ++ c.host ++ codes ":" ++ decimal a.port ++ codes "/v1/chat/completions")
        body
    else bus (c.bus_url ++ codes "/v1/request") (model_subject a.port) body (bus_timeout_ms a)

abbrev is_server_error : ℕ → Bool
is_server_error status = leb 500 status && ltb status 600

-- Which statuses are transient, on the direct path and on the bus.
unfoldable pub is_transient : Client → ℕ → Bool
is_transient c status =
    if is_empty c.bus_url
    then is_server_error status
    else (status == 503) || (status == 504) || is_server_error status

first_choice : Option (List Text) → Text
first_choice none = []
first_choice (some []) = []
first_choice (some (c ∷ cs)) = to_valid_utf8 c

error_text : Agent → Text → Text
error_text a msg =
    if is_empty msg then [] else codes "[" ++ a.name ++ codes " error] " ++ to_valid_utf8 msg

abbrev pub other_backend : BackendId → BackendId
other_backend llama_metal = python_mlx
other_backend python_mlx = llama_metal

fallback_decision : BackendId → Decision
fallback_decision alt = record {
  backend = alt;
  backend_name = name alt;
  reason = codes "load_failure_fallback";
  used_fallback = true;
}

or_else : AttemptResult → Option AttemptResult → AttemptResult
or_else attempt none = attempt
or_else attempt (some fb) = fb

abbrev pub no_attempt : AttemptResult
no_attempt = record { text = []; ok = false; retryable = false }

unfoldable pub role_prompt : Agent → Text → Text
role_prompt a system =
    if is_empty a.description
    then system
    else codes "# Role\n" ++ a.description ++ codes "\n\n" ++ system

module _ (net : Net) (ops : FloatOps) where
  open net use {World, post, choices, error_message}

  unfoldable pub extract_content : Text → Text
  unfolding first_choice
  extract_content body = first_choice (choices (to_valid_utf8 body))

  -- What one answer comes to.
  unfoldable pub read_reply : Client → Agent → Reply → AttemptResult
  unfolding extract_content error_text is_transient
  read_reply c a (no_connection e) = record {
    text = codes "Connection Error (" ++ a.name ++ codes "): " ++ e;
    ok = false;
    retryable = true;
  }
  read_reply c a (answer status body ms) =
      let content = trim_space (strip_template_leakage (extract_content body)) in
      if status == 200
      then record { text = content; ok = not (is_empty content); retryable = is_empty content }
      else record {
        text = error_text a (error_message body);
        ok = false;
        retryable = is_transient c status;
      }

  -- A success feeds the latency probe.
  probe_reply : Agent → Reply → AttemptResult → Router → Router
  probe_reply a (no_connection e) out r = r
  probe_reply a (answer status body ms) out r =
      if out.ok then record_probe_sample ops (probe_id a.engine) ms r else r

  unfoldable pub complete_once :
      Client → Agent → Text → Text → Router → World → AttemptResult × Router × World
  unfolding probe_reply
  complete_once c a system prompt r w =
      let (reply, w') = post (request_of c a system prompt) w in
      let out = read_reply c a reply in (out, probe_reply a reply out r, w')

  -- `none` where the fallback gave nothing to use.
  unfoldable pub try_fallback :
      Client
      → Agent
      → BackendId
      → Text
      → Text
      → Router
      → World
      → Option AttemptResult × Router × World
  unfolding fallback_decision
  try_fallback c a primary system prompt r w =
      let alt = other_backend primary in
      if not (supports (to_backend a) alt)
      then (none, r, w)
      else (let (fb, r', w') =
            complete_once c (with_engine a (materialized_engine alt)) system prompt r w in
          if fb.ok || not fb.retryable
          then (some fb, record_decision a.name (fallback_decision alt) r', w')
          else (none, r', w'))

  -- One round of the loop: an attempt, and the fallback if it failed and may be retried.
  round : Client → Agent → BackendId → Text → Text → Router → World → AttemptResult × Router × World
  unfolding or_else
  round c a primary system prompt r w =
      let work = with_engine a (materialized_engine primary) in
      let (attempt, r', w') = complete_once c work system prompt r w in
      if not attempt.ok && attempt.retryable && should_route r'
      then (let (fb, r'', w'') = try_fallback c a primary system prompt r' w' in
          (or_else attempt fb, r'', w''))
      else (attempt, r', w')

  -- `n` more rounds, after a failed one.
  attempts :
      ℕ
      → Client
      → Agent
      → BackendId
      → Text
      → Text
      → AttemptResult × Router × World
      → AttemptResult × Router × World
  unfolding round
  attempts zero c a primary system prompt last = last
  attempts (suc n) c a primary system prompt (last, r, w) =
      let (attempt, r', w') = round c a primary system prompt r w in
      let more = attempts n c a primary system prompt (attempt, r', w') in
      if attempt.ok || not attempt.retryable then (attempt, r', w') else more

  -- The call, once the router has decided; `none` is the panic of the first round's cut of the prompt, before
  -- anything is sent.
  unfoldable pub call_routed :
      Client → Agent → Text → Text → Decision → Router → World → Option Text × Router × World
  unfolding attempts role_prompt
  call_routed c a system prompt routing r w =
      let r' = if should_route r then record_decision a.name routing r else r in
      let (attempt, r'', w') =
        attempts 2 c a routing.backend (to_valid_utf8 (role_prompt a system)) (to_valid_utf8 prompt)
          (no_attempt, r', w) in
      if cap_panics a.max_input_tokens
      then (none, r', w)
      else (some (if is_empty attempt.text then not_responding a else attempt.text), r'', w')

  -- `CallWithSystem`; `none` is a panic, of `Resolve` or of the cut of the prompt. `metal` is the host's Metal support.
  unfoldable pub call_with_system :
      Bool → Client → Agent → Text → Text → Router → World → Option Text × Router × World
  unfolding call_routed
  call_with_system metal c a system prompt r w = elim (resolve metal r (to_backend a)) [
    | none ↦ (none, r, w)
    | some routing ↦ call_routed c a system prompt routing r w
  ]

  -- `Call`.
  unfoldable pub call : Bool → Client → Agent → Text → Router → World → Option Text × Router × World
  unfolding call_with_system
  call metal c a prompt r w = call_with_system metal c a a.system_prompt prompt r w
