-- ===== src/Session/Context/Tests.antt =====
-- A session of one run, with a policy that sets nothing and with a negative budget.
use cofiswarm_dispatch.Prelude.{ℕ, codes, text_eq, none, some, ◌≡◌, ◌↔◌, refl, arith}
use cofiswarm_dispatch.Prelude.Decimal.{ℤ, pos, negsuc}
use cofiswarm_dispatch.Prelude.Float.{Float64, zero_float}
use cofiswarm_dispatch.Json.{text, float, array, object, nil, cons, Fields, field, end, lookup}
use cofiswarm_dispatch.Session.{values_of, as_values}
use cofiswarm_dispatch.Session.Context.{Continuation, resolve_char_budget, policy_int, latest_run}
use cofiswarm_dispatch.Session.Context.Prompt.{build_continuation}
use cofiswarm_dispatch.Session.Context.Budget.{build_continuation-none}
use cofiswarm_dispatch.Session.Context.Followup.{HasFollowup, build_continuation-HasFollowup}

abbrev only_run : Fields
only_run = field (codes "final") (text (codes "Use port 8081.")) end

abbrev doc : Fields
doc =
    field (codes "sess_1") (object (field (codes "runs") (array (cons (object only_run) nil)) end))
      end

abbrev to_minus_one : Float64 → ℤ
to_minus_one x = negsuc 0

abbrev negative : Fields
negative = field (codes "max_context_chars") (float zero_float) end

doc-latest : latest_run doc (codes "sess_1") ≡ some only_run
unfolding latest_run lookup text_eq values_of as_values
doc-latest = refl

build_continuation-none_example :
    (build_continuation to_minus_one doc (codes "sess_1") (codes "Why?") negative ≡ none)
    ↔ ((n : ℕ) × ((resolve_char_budget to_minus_one negative).0 ≡ negsuc n))
build_continuation-none_example =
    build_continuation-none to_minus_one doc (codes "sess_1") (codes "Why?") negative only_run
      doc-latest

default_budget : (resolve_char_budget to_minus_one end).0 ≡ pos 24000
unfolding resolve_char_budget policy_int lookup
default_budget = refl

build_continuation-HasFollowup_example :
    (c : Continuation) × (build_continuation to_minus_one doc (codes "sess_1") (codes "Why?") end
      ≡ some c)
    × HasFollowup c.prompt (codes "Why?")
build_continuation-HasFollowup_example =
    build_continuation-HasFollowup to_minus_one doc (codes "sess_1") (codes "Why?") end only_run
      24000 doc-latest refl default_budget (omega arith)
