-- ===== src/Registry/Recall.antt =====
-- `Roster` against the whole history of fetches.
use cofiswarm_dispatch.Prelude.{
  ℕ, ◌-◌, ◌&&◌, none, List, [], ◌∷◌, ltb, if◌then◌else◌, ◌≡◌, refl, ap, arith,
}
use cofiswarm_dispatch.Backend.Router.{Env}
use cofiswarm_dispatch.Registry.{
  Slice, Fetched, failed, fetched, Registry, Cache, no_cache, roster_ttl, is_held, refresh,
  fetch_roster_from, roster, url,
}

-- When a call starts, and when its fetch ends, if it needs one.
pub record Call : Type 0 where
  pub now : ℕ
  pub done : ℕ

-- All that was fetched, the newest first, with the time.
abbrev pub Log : Type 0
Log = List (ℕ × Fetched Slice)

-- The roster of the last fetch that did not fail; nil if there is none.
abbrev pub last_good : Log → Slice
last_good [] = none
last_good ((t, failed e) ∷ log) = last_good log
last_good ((t, fetched r) ∷ log) = r

abbrev pub good_at : Log → ℕ
good_at [] = 0
good_at ((t, failed e) ∷ log) = good_at log
good_at ((t, fetched r) ∷ log) = t

module _ (registry : Registry) (env : Env) where
  open registry use {World}

  -- A call that remembers all fetches: it fetches unless the last good roster is not nil and younger than
  -- ten seconds, and returns the last good roster.
  unfoldable pub recall : Call → Log → World → Slice × Log × World
  recall call log w =
      let (r, w') = fetch_roster_from registry (url env) w in
      let log' = (call.done, r) ∷ log in
      if is_held (last_good log) && ltb (call.now - good_at log) roster_ttl
      then (last_good log, log, w)
      else (last_good log', log', w')

  unfoldable pub recall_all : List Call → Log → World → List Slice × World
  unfolding recall
  recall_all [] log w = ([], w)
  recall_all (call ∷ calls) log w =
      let (r, log', w') = recall call log w in
      let (rs, w'') = recall_all calls log' w' in (r ∷ rs, w'')

  unfoldable pub roster_all : List Call → Cache → World → List Slice × World
  roster_all [] c w = ([], w)
  roster_all (call ∷ calls) c w =
      let (r, c', w') = roster registry env call.now call.done c w in
      let (rs, w'') = roster_all calls c' w' in (r ∷ rs, w'')

  cache_of : Log → Cache
  cache_of log = record { roster = last_good log; fetched_at = good_at log }

  refresh-cache_of :
      (done : ℕ) (r : Fetched Slice) (log : Log)
      → refresh done r (cache_of log) ≡ (last_good ((done, r) ∷ log), cache_of ((done, r) ∷ log))
  unfolding refresh cache_of
  refresh-cache_of done (failed e) log = refl
  refresh-cache_of done (fetched r) log = refl

  roster-cache_of :
      (call : Call) (log : Log) (w : World)
      → let (r, log', w') = recall call log w in
        roster registry env call.now call.done (cache_of log) w ≡ (r, cache_of log', w')
  unfolding roster recall cache_of
  roster-cache_of call log w =
      let (r, w') = fetch_roster_from registry (url env) w in
      ground (arith, refresh-cache_of call.done r log)

  roster_all-cache_of :
      (calls : List Call) (log : Log) (w : World)
      → roster_all calls (cache_of log) w ≡ recall_all calls log w
  unfolding roster_all recall_all
  roster_all-cache_of [] log w = refl
  roster_all-cache_of (call ∷ calls) log w =
      let (r, log', w') = recall call log w in
      rw (roster-cache_of call log w) (ap (λ p. (r ∷ p.0, p.1)) (roster_all-cache_of calls log' w'))

  -- From the empty cache, for every sequence of calls, `Roster` returns the same rosters and asks the
  -- registry the same as calls that remember every fetch: each fetches unless the last roster that was
  -- fetched without an error is not nil and younger than ten seconds, and returns the last roster that
  -- was fetched without an error, or nil if there is none.
  pub roster_all-recall_all :
      (calls : List Call) (w : World) → roster_all calls no_cache w ≡ recall_all calls [] w
  unfolding cache_of no_cache
  roster_all-recall_all calls w = roster_all-cache_of calls [] w
