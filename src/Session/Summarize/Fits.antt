-- ===== src/Session/Summarize/Fits.antt =====
-- The runs that a compaction leaves fit the budget, or are the latest run alone.
use cofiswarm_dispatch.Prelude.{
  ℕ, suc, ◌+◌, ◌-◌, ◌≤◌, max, leb→le, not, keep, Text, codes, is_empty, text_eq, text_eq_refl, true,
  false, List, [], ◌∷◌, length, All, leb, ◌==◌, if◌then◌else◌, ◌≡◌, ◌⊎◌, inl, inr, refl, ◌∙◌, ap,
  sym, map, arith, Bool-cases,
}
use cofiswarm_dispatch.Prelude.Float.{FloatOps}
use cofiswarm_dispatch.Json.{Value, object, Fields, lookup, json_string}
use cofiswarm_dispatch.Session.{as_run, as_values}
use cofiswarm_dispatch.Session.Compaction.{
  IndexedScore, insert_score, drop_loop, scored_from, runs_to_drop, run_chars, runs_chars,
}
use cofiswarm_dispatch.Session.Compaction.Latest.{id_of, insert_score-All}
use cofiswarm_dispatch.Session.Summarize.{in_set, is_dropped, split_session, compact_session}
use cofiswarm_dispatch.Session.Summarize.Keeps.{
  keep-none, map-none, lookup-insert, as_values-items_of,
}

abbrev pub HasId : Value → Type 0
HasId v = is_empty (id_of v) ≡ false

abbrev pub last_chars : List Value → ℕ
last_chars [] = 0
last_chars (v ∷ []) = run_chars (as_run v)
last_chars (v ∷ w ∷ vs) = last_chars (w ∷ vs)

-- A sum over the sorted runs.
sum : (IndexedScore → ℕ) → List IndexedScore → ℕ
sum f [] = 0
sum f (s ∷ ss) = f s + sum f ss

sum-insert_score :
    (f : IndexedScore → ℕ) (x : IndexedScore) (ys : List IndexedScore)
    → sum f (insert_score x ys) ≡ f x + sum f ys
unfolding sum insert_score
sum-insert_score f x [] = refl
sum-insert_score f x (y ∷ ys) = ground (arith, sum-insert_score f x ys)

abbrev scored_id : IndexedScore → Text
scored_id s = json_string s.run (codes "run_id")

abbrev chars : IndexedScore → ℕ
chars s = run_chars s.run

-- What a run adds to those that are kept, and to the latest one.
abbrev chars_kept : List Text → IndexedScore → ℕ
chars_kept ids s = if in_set (scored_id s) ids then 0 else chars s

abbrev chars_last : ℕ → IndexedScore → ℕ
chars_last last s = if s.idx == last then chars s else 0

sum-chars_kept-le :
    (ids : List Text) (ss : List IndexedScore) → sum (chars_kept ids) ss ≤ sum chars ss
unfolding sum
sum-chars_kept-le ids [] = omega arith
sum-chars_kept-le ids (s ∷ ss) = ground (arith, sum-chars_kept-le ids ss)

-- `rest` is the size of what was passed over.
drop_loop-fits :
    (ids : List Text) (last target total rest : ℕ) (ss : List IndexedScore)
    → All (λ s. is_empty (scored_id s) ≡ false) ss
    → ((d : Text) → in_set d (drop_loop last target total ss) ≡ true → in_set d ids ≡ true)
    → total ≡ rest + sum chars ss
    → (rest + sum (chars_kept ids) ss ≤ target)
      ⊎ (rest + sum (chars_kept ids) ss ≤ rest + sum (chars_last last) ss)
unfolding drop_loop sum in_set
drop_loop-fits ids last target total rest [] h inside e = inr (omega arith)
drop_loop-fits ids last target total rest (s ∷ ss) h inside e = elim (Bool-cases (s.idx == last)) [
  | inl at ↦
      let ih =
        drop_loop-fits ids last target total (rest + chars s) ss h.1 (λ d k. inside d (rw at k))
          (omega arith) in
      ground (arith, ih)
  | inr before ↦ elim (Bool-cases (leb total target)) [
    | inl small ↦ inl (ground (arith, sum-chars_kept-le ids (s ∷ ss)))
    | inr large ↦
        let id = scored_id s in
        let more = drop_loop last target (total - chars s) ss in
        let dropped : in_set id ids ≡ true =
          inside id (rw (before, large, h.0) (ground (arith, text_eq_refl id))) in
        let ih =
          drop_loop-fits ids last target (total - chars s) rest ss h.1
            (λ d k. inside d (rw (before, large, h.0) (ground arith))) (omega arith) in
        ground (arith, ih, dropped)
  ]
]

-- Only a map has an id.
is_dropped-in_set :
    (ids : List Text) (v : Value) → HasId v → is_dropped ids v ≡ in_set (id_of v) ids
unfolding is_dropped json_string lookup
is_dropped-in_set ids (object run) h = refl
is_dropped-in_set ids _ h = absurd (ground arith)

module _ (ops : FloatOps) where
  sum-chars : (n : ℕ) (rs : List Value) → sum chars (scored_from ops n rs) ≡ runs_chars rs
  unfolding scored_from runs_chars sum
  sum-chars n [] = refl
  sum-chars n (r ∷ rs) =
      sum-insert_score chars _ (scored_from ops (n + 1) rs)
      ∙ ap (λ k. run_chars (as_run r) + k) (sum-chars (n + 1) rs)

  sum-chars_kept :
      (ids : List Text) (n : ℕ) (rs : List Value)
      → All HasId rs
      → sum (chars_kept ids) (scored_from ops n rs)
        ≡ runs_chars (keep (λ r. not (is_dropped ids r)) rs)
  unfolding scored_from runs_chars sum
  sum-chars_kept ids n [] h = refl
  sum-chars_kept ids n (r ∷ rs) h =
      let dropped = is_dropped-in_set ids r h.0 in
      let rest = sum-chars_kept ids (n + 1) rs h.1 in
      sum-insert_score (chars_kept ids) _ (scored_from ops (n + 1) rs)
      ∙ ground (arith, dropped, rest)

  sum-chars_last :
      (last n : ℕ) (rs : List Value)
      → n + length rs ≡ suc last
      → sum (chars_last last) (scored_from ops n rs) ≡ last_chars rs
  unfolding scored_from sum
  sum-chars_last last n [] at = refl
  sum-chars_last last n (v ∷ []) at =
      let here : (n == last) ≡ true = ground arith in rw here (omega arith)
  sum-chars_last last n (v ∷ w ∷ vs) at =
      let rest = sum-chars_last last (n + 1) (w ∷ vs) (omega arith) in
      let past : (n == last) ≡ false = ground arith in
      sum-insert_score (chars_last last) _ (scored_from ops (n + 1) (w ∷ vs))
      ∙ rw past (omega (arith, rest))

  scored_from-All :
      (n : ℕ) (rs : List Value)
      → All HasId rs
      → All (λ s. is_empty (scored_id s) ≡ false) (scored_from ops n rs)
  unfolding scored_from
  scored_from-All n [] h = tt
  scored_from-All n (r ∷ rs) h =
      insert_score-All (λ s. is_empty (scored_id s) ≡ false) _ (scored_from ops (n + 1) rs) h.0
        (scored_from-All (n + 1) rs h.1)

  runs_to_drop_large :
      (runs : List Value) (target : ℕ)
      → leb (runs_chars runs) target ≡ false
      → runs_to_drop ops runs target
        ≡ drop_loop (length runs - 1) target (runs_chars runs) (scored_from ops 0 runs)
  unfolding runs_to_drop
  runs_to_drop_large runs target large = rw large refl

  sum-chars_kept-max :
      (runs : List Value) (target : ℕ)
      → 1 ≤ length runs
      → All HasId runs
      → sum (chars_kept (runs_to_drop ops runs target)) (scored_from ops 0 runs)
        ≤ max target (last_chars runs)
  sum-chars_kept-max runs target some_run h =
      let ids = runs_to_drop ops runs target in
      let sorted = scored_from ops 0 runs in
      let last = length runs - 1 in
      let total = sum-chars 0 runs in
      elim (Bool-cases (leb (runs_chars runs) target)) [
        | inl small ↦
            let fits : runs_chars runs ≤ target = leb→le _ _ small in
            omega (arith, fits, total, sum-chars_kept-le ids sorted)
        | inr large ↦
            let latest = sum-chars_last last 0 runs (omega arith) in
            let chosen = runs_to_drop_large runs target large in
            elim (drop_loop-fits ids last target (runs_chars runs) 0 sorted
              (scored_from-All 0 runs h) (λ d k. rw chosen k) (omega (arith, total))) [
                | inl fits ↦ omega (arith, fits)
                | inr fits ↦ omega (arith, fits, latest)
              ]
      ]

  -- Where every run of a session has an id, the runs that are left after dropping what `RunsToDrop` chose
  -- are no larger than the budget, or than the latest run alone if that is larger.
  pub runs_chars-runs_to_drop-le :
      (runs : List Value) (target : ℕ)
      → All HasId runs
      → runs_chars (keep (λ r. not (is_dropped (runs_to_drop ops runs target) r)) runs)
        ≤ max target (last_chars runs)
  runs_chars-runs_to_drop-le [] target h = unfold runs_chars in omega arith
  runs_chars-runs_to_drop-le (r ∷ rs) target h =
      rw (← sum-chars_kept (runs_to_drop ops (r ∷ rs) target) 0 (r ∷ rs) h)
        (sum-chars_kept-max (r ∷ rs) target (omega arith) h)

runs_chars_short : (rs : List Value) → leb (length rs) 1 ≡ true → runs_chars rs ≤ last_chars rs
unfolding runs_chars
runs_chars_short [] h = omega arith
runs_chars_short (r ∷ []) h = omega arith
runs_chars_short (r ∷ q ∷ rs) h = absurd (ground arith)

abbrev pub runs_in : Fields → List Value
runs_in sess = as_values (lookup (codes "runs") sess)

module _ (ops : FloatOps) where
  split_session-runs :
      (sess : Fields) (ids : List Text)
      → runs_in (split_session ops sess (runs_in sess) ids).0
        ≡ keep (λ r. not (is_dropped ids r)) (runs_in sess)
  unfolding split_session
  split_session-runs sess ids = go (map as_run (keep (is_dropped ids) (runs_in sess))) refl
    where
      go :
          (evicted : List Fields)
          → map as_run (keep (is_dropped ids) (runs_in sess)) ≡ evicted
          → runs_in (split_session ops sess (runs_in sess) ids).0
            ≡ keep (λ r. not (is_dropped ids r)) (runs_in sess)
      go [] e =
          let none_dropped = map-none as_run (keep (is_dropped ids) (runs_in sess)) e in
          rw (e, split_session) (sym (keep-none (is_dropped ids) (runs_in sess) none_dropped))
      go (d ∷ ds) e =
          rw (e, split_session, lookup-insert)
            (unfold text_eq in
              as_values-items_of (keep (λ r. not (is_dropped ids r)) (runs_in sess)))

  -- Where every run of a session has an id, the runs that the compaction of a session leaves are no larger
  -- than the budget, or than the latest run alone if that is larger.
  pub compact_session-fits :
      (sess : Fields) (target : ℕ)
      → All HasId (runs_in sess)
      → runs_chars (runs_in (compact_session ops sess target).0)
        ≤ max target (last_chars (runs_in sess))
  unfolding compact_session
  compact_session-fits sess target h = elim (Bool-cases (leb (length (runs_in sess)) 1)) [
    | inl short ↦ rw short (omega (arith, runs_chars_short (runs_in sess) short))
    | inr long ↦
        rw (long, split_session-runs sess (runs_to_drop ops (runs_in sess) target))
          (runs_chars-runs_to_drop-le ops (runs_in sess) target h)
  ]
