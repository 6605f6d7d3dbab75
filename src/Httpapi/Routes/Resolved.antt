-- ===== src/Httpapi/Routes/Resolved.antt =====
-- `/api/backend/resolve`: its answer, and what it leaves in the router.
use cofiswarm_dispatch.Prelude.{
  Text, is_empty, Bool, true, false, none, [], if◌then◌else◌, ◌≡◌, refl, Bool-cases, inl, inr,
  arith,
}
use cofiswarm_dispatch.Backend.Router.{
  Router, Context, Decision, set_context, clear_context, should_route,
}
use cofiswarm_dispatch.Backend.Router.Choose.Sound.{IsSound, resolve_total}
use cofiswarm_dispatch.Backend.Router.Record.{record_decision}
use cofiswarm_dispatch.Httpapi.{json}
use cofiswarm_dispatch.Httpapi.Routes.{
  decoded, ResolveBody, decision_body, resolve_inside, handle_resolve,
}

record_decision-set_context :
    (name : Text) (d : Decision) (c : Context) (r : Router)
    → (record_decision name d (set_context c r)).decision_log
      ≡ (record_decision name d r).decision_log
unfolding record_decision set_context
record_decision-set_context name d c r = ground arith

-- With no other request in between: a post that names an agent is answered with a decision that is sound for
-- the agent, in whatever context the body asks for; after it the router has neither a context nor current
-- decisions, and its log has the decision at its end if the agent is routed in that context, and is as it
-- was if not.
pub handle_resolve-IsSound :
    (metal : Bool) (body : ResolveBody) (r : Router)
    → is_empty body.agent.name ≡ false
    → let (response, r') = handle_resolve metal true (decoded body) r in
      (d : Decision) × IsSound body.agent d
      × (response ≡ json 200 (decision_body body.agent.name d))
      × (r'.ctx ≡ none)
      × (r'.last_decisions ≡ [])
      × (r'.decision_log ≡ (
          if should_route (set_context body.context r)
          then (record_decision body.agent.name d r).decision_log
          else r.decision_log))
unfolding handle_resolve resolve_inside clear_context set_context
handle_resolve-IsSound metal body r named =
    let inside = set_context body.context r in
    let (d, e, sound) = resolve_total metal inside body.agent in
    elim (Bool-cases (should_route inside)) [
      | inl f ↦
          let log = record_decision-set_context body.agent.name d body.context r in
          rw (named, e, resolve_inside, f) (d, sound, refl, refl, refl, log)
      | inr f ↦ rw (named, e, resolve_inside, f) (d, sound, refl, refl, refl, refl)
    ]
