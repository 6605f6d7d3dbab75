-- ===== src/Registry.antt =====
-- internal/registry/client.go: the client of the agent registry, with its cached roster. The registry and
-- the JSON of its answers are parameters; `Roster` holds a lock, so it is one step. A time is its
-- nanoseconds on the clock of the process, which does not run backwards.
pub mod Recall
pub mod Tests
use cofiswarm_dispatch.Prelude.{
  ℕ, ◌-◌, Text, codes, text_eq, is_empty, Bool, true, false, not, ◌&&◌, Option, none, some, List,
  [], ◌∷◌, ◌++◌, length, ltb, ◌==◌, if◌then◌else◌,
}
use cofiswarm_dispatch.Prelude.Space.{trim_right_slash}
use cofiswarm_dispatch.Backend.Router.{Env}
use cofiswarm_dispatch.Http.{Reply, no_connection, answer}
use cofiswarm_dispatch.Agent.{Agent}

unfoldable pub url : Env → Text
url env =
    let v = env (codes "COFISWARM_AGENT_REGISTRY_URL") in
    if is_empty v then codes "http://127.0.0.1:8012" else trim_right_slash v

pub data Error : Type 0 where
  unreachable : Text → Error
  bad_status : ℕ → Error
  undecodable : Error
  not_found : Text → ℕ → Error

-- A slice, nil or not.
abbrev pub Slice : Type 0
Slice = Option (List Agent)

abbrev pub agents_of : Slice → List Agent
agents_of none = []
agents_of (some as') = as'

pub data Fetched (A : Type 0) : Type 0 where
  failed : Error → Fetched A
  fetched : A → Fetched A

pub record Registry : Type 1 where
  pub World : Type 0
  pub get : (url : Text) → World → Reply × World
  pub post : (url body : Text) → World → Reply × World
  pub marshal : Agent → Text
  -- The roster of an answer; `null` decodes to nil.
  pub decode : Text → Option Slice

-- `rosterCache` and `rosterFetched`.
pub record Cache : Type 0 where
  pub roster : Slice
  pub fetched_at : ℕ

unfoldable pub no_cache : Cache
no_cache = record { roster = none; fetched_at = 0 }

abbrev pub roster_ttl : ℕ
roster_ttl = 10000000000

unfoldable pub find_agent : Text → ℕ → List Agent → Fetched Agent
find_agent name n [] = failed (not_found name n)
find_agent name n (a ∷ roster) =
    let rest = find_agent name n roster in if text_eq a.name name then fetched a else rest

agent_in : Text → Fetched Slice → Fetched Agent
unfolding find_agent
agent_in name (failed e) = failed e
agent_in name (fetched r) = find_agent name (length (agents_of r)) (agents_of r)

unfoldable pub is_held : Slice → Bool
is_held none = false
is_held (some roster) = true

decoded : Option Slice → Fetched Slice
decoded none = failed undecodable
decoded (some r) = fetched r

-- After a fetch that ended at `done`.
unfoldable pub refresh : ℕ → Fetched Slice → Cache → Slice × Cache
refresh done (failed e) c = (c.roster, c)
refresh done (fetched r) c = (r, record { roster = r; fetched_at = done })

module _ (registry : Registry) where
  open registry use {World, get, post, marshal, decode}

  read_roster : Reply → Fetched Slice
  unfolding decoded
  read_roster (no_connection e) = failed (unreachable e)
  read_roster (answer status body) =
      if status == 200 then decoded (decode body) else failed (bad_status status)

  unfoldable pub fetch_roster_from : Text → World → Fetched Slice × World
  unfolding read_roster
  fetch_roster_from base w =
      let (reply, w') = get (base ++ codes "/api/agents") w in (read_roster reply, w')

  unfoldable pub fetch_agent : Env → Text → World → Fetched Agent × World
  unfolding agent_in
  fetch_agent env name w = let (r, w') = fetch_roster_from (url env) w in (agent_in name r, w')

  -- `Roster` called at `now`; a fetch ends at `done`.
  unfoldable pub roster : Env → (now done : ℕ) → Cache → World → Slice × Cache × World
  unfolding is_held refresh
  roster env now done c w =
      let (r, w') = fetch_roster_from (url env) w in
      let (res, c') = refresh done r c in
      if is_held c.roster && ltb (now - c.fetched_at) roster_ttl
      then (c.roster, c, w)
      else (res, c', w')

  put_error : Reply → Option Error
  put_error (no_connection e) = some (unreachable e)
  put_error (answer status body) =
      if not (status == 200) && not (status == 201) then some (bad_status status) else none

  unfoldable pub put_agent : Env → Agent → World → Option Error × World
  unfolding put_error
  put_agent env a w =
      let (reply, w') = post (url env ++ codes "/api/agents") (marshal a) w in (put_error reply, w')
