-- ===== src/Registry/Tests.antt =====
-- A registry that answers once and is then gone.
use cofiswarm_dispatch.Prelude.{ℕ, zero, suc, ◌+◌, codes, some, List, [], ◌∷◌, ◌≡◌}
use cofiswarm_dispatch.Backend.Router.{Env}
use cofiswarm_dispatch.Http.{Reply, no_connection, answer}
use cofiswarm_dispatch.Registry.{Registry, no_cache}
use cofiswarm_dispatch.Registry.Recall.{Call, roster_all, recall_all, roster_all-recall_all}

abbrev reply_at : ℕ → Reply
reply_at zero = answer 200 (codes "[]")
reply_at (suc n) = no_connection (codes "refused")

-- The world counts the requests.
abbrev once : Registry
once = record {
  World = ℕ;
  get = λ url n. (reply_at n, n + 1);
  post = λ url body n. (answer 201 [], n);
  marshal = λ a. [];
  decode = λ body. some (some []);
}

abbrev env : Env
env = λ key. []

abbrev calls : List Call
calls =
    record { now = 1; done = 2 }
    ∷ record { now = 5; done = 6 }
    ∷ record { now = 20000000000; done = 20000000001 }
    ∷ []

roster_all-recall_all_example :
    roster_all once env calls no_cache 0 ≡ recall_all once env calls [] 0
roster_all-recall_all_example = roster_all-recall_all once env calls 0
