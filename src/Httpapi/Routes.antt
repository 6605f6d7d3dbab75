-- ===== src/Httpapi/Routes.antt =====
-- The small routes of internal/httpapi: those of server.go for the history, and backend_routes.go. A body is given as it decodes; `malformed` carries the error's text.
pub mod Resolved
pub mod Services
use cofiswarm_dispatch.Prelude.{
  Text, codes, is_empty, Bool, true, false, ◌||◌, ltb, Option, none, some, List, [], ◌∷◌, ◌++◌, map,
  if◌then◌else◌,
}
use cofiswarm_dispatch.Prelude.Space.{trim_right_slash}
use cofiswarm_dispatch.Prelude.Decimal.{ℤ, pos, negsuc, atoi, itoa}
use cofiswarm_dispatch.Disk.{Write, Outcome, ok, err}
use cofiswarm_dispatch.Json.{
  Value, null, yes_value, no_value, int, float, text, array, object, Fields, end, field,
}
use cofiswarm_dispatch.Backend
use cofiswarm_dispatch.Backend.Router.{
  Router, Context, Decision, LoggedDecision, is_enabled, logged_decisions, set_context,
  clear_context, should_route,
}
use cofiswarm_dispatch.Backend.Router.Choose.{resolve}
use cofiswarm_dispatch.Backend.Router.Record.{record_decision, snapshot_decisions}
use cofiswarm_dispatch.History
use cofiswarm_dispatch.Session.{items_of}
use cofiswarm_dispatch.Session.Context.{Continuation}
use cofiswarm_dispatch.Session.Context.Prompt.{build_continuation}
use cofiswarm_dispatch.Rag.{
  Hit, Failure, disabled, unreachable, bad_status, retrieve, health_check, render_context_block,
}
use cofiswarm_dispatch.Prepare.{bool_value}
use cofiswarm_dispatch.Httpapi.{
  Server, Deps, World, Response, json, plain, panicked, post_only, rag_service, snapshot_fields,
}

pub data Decoded (A : Type 0) : Type 0 where
  malformed : Text → Decoded A
  decoded : A → Decoded A

unfoldable pub error_body : Text → Value
error_body message = object (field (codes "error") (text message) end)

abbrev ok_json : Value → Response
ok_json v = json 200 v

unfoldable pub get_only : Response
get_only = plain 405 (codes "GET only")

row_values : List Fields → Value
row_values rows = array (items_of (map object rows))

-- A nil slice is `null`.
found_values : List Fields → Value
unfolding row_values
found_values [] = null
found_values (row ∷ rows) = row_values (row ∷ rows)

unfoldable pub health : Response
health = ok_json (
    object (
      field (codes "status") (text (codes "ok"))
        (field (codes "role") (text (codes "dispatch")) end)))

-- A method on a nil store panics.
unfoldable pub handle_history : (is_get : Bool) → Server → Response
unfolding row_values get_only
handle_history is_get s =
    if is_get
    then elim s.history [ none ↦ panicked | some h ↦ ok_json (row_values (History.all_rows h)) ]
    else get_only

limit_or : Option ℤ → ℤ
limit_or (some (pos n)) = if ltb 0 n then pos n else pos 20
limit_or _ = pos 20

unfoldable pub handle_search : (lower : Text → Text) → (q limit : Text) → Server → Response
unfolding limit_or found_values
handle_search lower q limit s = elim s.history [
  | none ↦ panicked
  | some h ↦ ok_json (found_values (History.search lower q (limit_or (atoi limit)) h))
]

append_answer : Outcome → (cause : Text) → Response
append_answer ok cause = json 201 (object (field (codes "status") (text (codes "ok")) end))
append_answer err cause = plain 500 cause

-- `cause` is the error of the file system, where there is one.
unfoldable pub handle_entry :
    History.Codec
    → Write
    → (cause : Text) → (is_post : Bool) → Decoded Fields
    → Server
    → Response × Server
unfolding append_answer
handle_entry codec w cause false entry s = (post_only, s)
handle_entry codec w cause true (malformed e) s = (plain 400 e, s)
handle_entry codec w cause true (decoded entry) s = elim s.history [
  | none ↦ (panicked, s)
  | some h ↦
      let (h', outcome) = History.append codec w entry h in
      (append_answer outcome cause, record s { history = some h' })
]

unfoldable pub handle_status : Server → Response
handle_status s = ok_json (object (field (codes "enabled") (bool_value (is_enabled s.router)) end))

unfoldable pub handle_decisions : Server → Response
handle_decisions s = ok_json (object (snapshot_fields (snapshot_decisions s.router)))

logged_fields : LoggedDecision → Fields
logged_fields d = field (codes "agent") (text d.agent) (
    field (codes "backend") (text d.backend_name) (
      field (codes "reason") (text d.reason)
        (field (codes "fallback") (bool_value d.used_fallback) end)))

unfoldable pub handle_log : Server → Response
unfolding logged_fields row_values
handle_log s = ok_json (row_values (map logged_fields (logged_decisions s.router)))

pub record ResolveBody : Type 0 where
  pub agent : Backend.Agent
  pub context : Context

unfoldable pub decision_body : Text → Decision → Value
decision_body name d = object (
    field (codes "agent") (text name) (
      field (codes "backend") (text d.backend_name) (
        field (codes "reason") (text d.reason)
          (field (codes "fallback") (bool_value d.used_fallback) end))))

-- In the context of the body; the deferred call clears it on a panic too.
unfoldable pub resolve_inside : (metal : Bool) → ResolveBody → Router → Response × Router
resolve_inside metal body r =
    let inside = set_context body.context r in
    elim (resolve metal inside body.agent) [
      | none ↦ (panicked, clear_context inside)
      | some d ↦ (
        ok_json (decision_body body.agent.name d),
        clear_context
            (if should_route inside then record_decision body.agent.name d inside else inside),
      )
    ]

unfoldable pub handle_resolve :
    (metal is_post : Bool) → Decoded ResolveBody → Router → Response × Router
unfolding resolve_inside error_body
handle_resolve metal false body r = (post_only, r)
handle_resolve metal true (malformed e) r = (json 400 (error_body e), r)
handle_resolve metal true (decoded body) r =
    let res = resolve_inside metal body r in
    if is_empty body.agent.name
    then (json 400 (error_body (codes "agent.name required")), r)
    else res
