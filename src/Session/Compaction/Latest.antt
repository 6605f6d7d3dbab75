-- ===== src/Session/Compaction/Latest.antt =====
-- The latest run is not dropped.
use cofiswarm_dispatch.Prelude.{
  ℕ, ◌+◌, ◌-◌, Text, codes, is_empty, List, [], ◌∷◌, ◌++◌, length, length-append, All, leb, ◌==◌,
  ◌≡◌, ◌≢◌, ◌⊎◌, inl, inr, arith, Bool-cases,
}
use cofiswarm_dispatch.Prelude.Float.{FloatOps, float_lt}
use cofiswarm_dispatch.Json.{Value, json_string}
use cofiswarm_dispatch.Session.{as_run}
use cofiswarm_dispatch.Session.Compaction.{
  IndexedScore, insert_score, drop_loop, scored_from, runs_to_drop, run_chars, runs_chars,
  score_run,
}

abbrev pub id_of : Value → Text
id_of v = json_string (as_run v) (codes "run_id")

-- A run with another id.
abbrev pub HasOtherId : Text → Value → Type 0
HasOtherId id v = id_of v ≢ id

-- The run at the last index, or one with another id.
abbrev IsSafe : Text → ℕ → IndexedScore → Type 0
IsSafe id last s = (s.idx ≡ last) ⊎ (json_string s.run (codes "run_id") ≢ id)

pub insert_score-All :
    (P : IndexedScore → Type 0) (x : IndexedScore) (ys : List IndexedScore)
    → P x
    → All P ys
    → All P (insert_score x ys)
unfolding insert_score
insert_score-All P x [] hx hy = (hx, tt)
insert_score-All P x (y ∷ ys) hx hy = elim (Bool-cases (float_lt y.score x.score)) [
  | inl e ↦ rw e (hy.0, insert_score-All P x ys hx hy.1)
  | inr e ↦ rw e (hx, hy)
]

drop_loop-All :
    (id : Text) (last target total : ℕ) (ss : List IndexedScore)
    → All (IsSafe id last) ss
    → All (λ d. d ≢ id) (drop_loop last target total ss)
unfolding drop_loop
drop_loop-All id last target total [] h = tt
drop_loop-All id last target total (s ∷ ss) h =
    let skip = drop_loop-All id last target total ss h.1 in
    let more = drop_loop-All id last target (total - run_chars s.run) ss h.1 in
    elim (Bool-cases (s.idx == last)) [
      | inl e ↦ rw e skip
      | inr e ↦ elim (Bool-cases (leb total target)) [
        | inl f ↦ rw (e, f) tt
        | inr f ↦ elim (Bool-cases (is_empty (json_string s.run (codes "run_id")))) [
          | inl g ↦ rw (e, f, g) more
          | inr g ↦
              let other : json_string s.run (codes "run_id") ≢ id = elim h.0 [
                | inl at ↦ absurd (ground arith)
                | inr other ↦ other
              ] in
              rw (e, f, g) (other, more)
        ]
      ]
    ]

module _ (ops : FloatOps) where
  abbrev at_index : ℕ → Value → IndexedScore
  at_index n r = record { idx = n; score = score_run ops (as_run r); run = as_run r }

  scored_from-All :
      (id : Text) (last n : ℕ) (rs : List Value) (r : Value)
      → n + length rs ≡ last
      → All (HasOtherId id) rs
      → All (IsSafe id last) (scored_from ops n (rs ++ r ∷ []))
  unfolding scored_from
  scored_from-All id last n [] r at h =
      insert_score-All (IsSafe id last) (at_index n r) [] (inl (omega arith)) tt
  scored_from-All id last n (v ∷ rs) r at h =
      insert_score-All (IsSafe id last) (at_index n v) (scored_from ops (n + 1) (rs ++ r ∷ []))
        (inr h.0) (scored_from-All id last (n + 1) rs r (omega arith) h.1)

  -- No id to drop is the latest run's, where the other runs have other ids.
  pub runs_to_drop-latest :
      (rs : List Value) (r : Value) (target : ℕ)
      → All (HasOtherId (id_of r)) rs
      → All (λ d. d ≢ id_of r) (runs_to_drop ops (rs ++ r ∷ []) target)
  unfolding runs_to_drop
  runs_to_drop-latest rs r target h =
      let size = length-append rs (r ∷ []) in
      let sorted = scored_from ops 0 (rs ++ r ∷ []) in
      let last = length (rs ++ r ∷ []) - 1 in
      let safe = scored_from-All (id_of r) last 0 rs r (omega arith) h in
      elim (Bool-cases (leb (runs_chars (rs ++ r ∷ [])) target)) [
        | inl e ↦ rw e tt
        | inr e ↦ rw e (drop_loop-All (id_of r) last target (runs_chars (rs ++ r ∷ [])) sorted safe)
      ]
