-- ===== src/Kvpool.antt =====
-- internal/kvpool/kvpool.go: the client of the policy sidecar. The network and the JSON of its answers are
-- parameters.
use cofiswarm_dispatch.Prelude.{
  ℕ, ◌+◌, ◌/◌, Text, codes, Bool, true, Option, none, some, ◌++◌, length, leb, if◌then◌else◌,
}
use cofiswarm_dispatch.Prelude.Decimal.{pos}
use cofiswarm_dispatch.Json.{text, int, Fields, end, field}
use cofiswarm_dispatch.Backend.Router.{Env}
use cofiswarm_dispatch.Http.{Reply, no_connection, answer, Network}

unfoldable pub url : Env → Text
url env = env (codes "COFISWARM_KVPOOL_URL")

unfoldable pub estimate_tokens : Text → ℕ
estimate_tokens prompt = length prompt / 4 + 1

module _ (marshal : Fields → Text) (decision : Text → Option (Bool × Text)) where
  -- An error allows the run.
  read_admit : Reply → Bool × Text
  read_admit (no_connection e) = (true, codes "kvpool_unreachable")
  read_admit (answer status body) = elim (decision body) [
    | none ↦ (true, codes "kvpool_error")
    | some (allowed, reason) ↦
        if leb 300 status then (true, codes "kvpool_error") else (allowed, reason)
  ]

  unfoldable pub admit :
      (net : Network) → (base group : Text) → ℕ → net.World → (Bool × Text) × net.World
  unfolding read_admit
  admit net base group tokens w =
      let (reply, w') =
        net.post (base ++ codes "/v1/admit")
          (marshal
            (field (codes "group") (text group) (field (codes "tokens") (int (pos tokens)) end)))
          (some (pos 2)) w in
      (read_admit reply, w')
