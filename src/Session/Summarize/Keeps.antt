-- ===== src/Session/Summarize/Keeps.antt =====
-- What a compaction keeps.
use cofiswarm_dispatch.Prelude.{
  ℕ, Text, codes, text_eq, text_eq_iff, Bool, true, false, not, length-append, some, List, [], ◌∷◌,
  ◌++◌, length, map, All, keep, keep-append, append-nil, leb, if◌then◌else◌, ◌≡◌, ◌≢◌, refl, ap,
  sym, ◌∙◌, arith, Bool-cases, inl, inr,
}
use cofiswarm_dispatch.Prelude.Float.{FloatOps}
use cofiswarm_dispatch.Json.{Value, array, object, Fields, end, field, lookup, insert, json_string}
use cofiswarm_dispatch.Session.{as_run, values_of, items_of, as_values}
use cofiswarm_dispatch.Session.Compaction.{runs_to_drop}
use cofiswarm_dispatch.Session.Compaction.Latest.{HasOtherId, runs_to_drop-latest}
use cofiswarm_dispatch.Session.Summarize.{in_set, is_dropped, split_session, compact_session}

pub lookup-insert :
    (k j : Text) (v : Value) (m : Fields)
    → lookup j (insert k v m) ≡ (if text_eq k j then some v else lookup j m)
unfolding lookup insert
lookup-insert k j v end = refl
lookup-insert k j v (field i w m) =
    ground (arith, lookup-insert k j v m, text_eq_iff i k, text_eq_iff k j, text_eq_iff i j)

pub as_values-items_of : (vs : List Value) → as_values (some (array (items_of vs))) ≡ vs
unfolding as_values values_of items_of
as_values-items_of vs = go vs
  where
    go : (vs : List Value) → values_of (items_of vs) ≡ vs
    go [] = refl
    go (v ∷ vs) = ap (λ r. v ∷ r) (go vs)

pub keep-none :
    {A : Type 0} (p : A → Bool) (xs : List A) → keep p xs ≡ [] → keep (λ x. not (p x)) xs ≡ xs
keep-none p [] h = refl
keep-none p (x ∷ xs) h = elim (Bool-cases (p x)) [
  | inl e ↦ absurd (ground arith)
  | inr e ↦ let rest : keep p xs ≡ [] = ground arith in rw e (ap (λ r. x ∷ r) (keep-none p xs rest))
]

pub map-none : {A B : Type 0} (f : A → B) (xs : List A) → map f xs ≡ [] → xs ≡ []
map-none f [] h = refl
map-none f (x ∷ xs) h = absurd cc

no_other : {A : Type 0} (xs : List A) (y : A) → leb (length (xs ++ y ∷ [])) 1 ≡ true → xs ≡ []
no_other [] y h = refl
no_other (x ∷ xs) y h = absurd (ground (arith, length-append xs (y ∷ [])))

in_set-All : (id : Text) (ds : List Text) → All (λ d. d ≢ id) ds → in_set id ds ≡ false
unfolding in_set
in_set-All id [] h = refl
in_set-All id (d ∷ ds) h = ground (arith, text_eq_iff id d, in_set-All id ds h.1)

module _ (ops : FloatOps) where
  -- What a session's compaction promises of its runs.
  pub record Kept (runs : List Value) (run : Fields) (out : Fields × List Fields) : Type 0 where
    pub kept : List Value
    pub latest : lookup (codes "runs") out.0 ≡ some (array (items_of (kept ++ object run ∷ [])))
    pub ids : List Text
    pub kept_so : kept ≡ keep (λ r. not (is_dropped ids r)) runs
    pub evicted_so : out.1 ≡ map as_run (keep (is_dropped ids) runs)

  split_session-Kept :
      (sess : Fields) (runs : List Value) (run : Fields) (ids : List Text)
      → lookup (codes "runs") sess ≡ some (array (items_of (runs ++ object run ∷ [])))
      → is_dropped ids (object run) ≡ false
      → Kept runs run (split_session ops sess (runs ++ object run ∷ []) ids)
  unfolding split_session
  split_session-Kept sess runs run ids at stays = go (map as_run (keep (is_dropped ids) all)) refl
    where
      all : List Value
      all = runs ++ object run ∷ []

      staying : List Value
      staying = keep (λ r. not (is_dropped ids r)) runs

      evicted_all : keep (is_dropped ids) all ≡ keep (is_dropped ids) runs
      evicted_all = rw (keep-append (is_dropped ids) runs (object run ∷ []), stays) (append-nil _)

      staying_all : keep (λ r. not (is_dropped ids r)) all ≡ staying ++ object run ∷ []
      staying_all = rw (keep-append (λ r. not (is_dropped ids r)) runs (object run ∷ []), stays)

      go :
          (evicted : List Fields)
          → map as_run (keep (is_dropped ids) all) ≡ evicted
          → Kept runs run (split_session ops sess all ids)
      go [] e =
          let none_dropped = sym evicted_all ∙ map-none as_run (keep (is_dropped ids) all) e in
          rw (e, split_session)
            (record {
              kept = runs;
              latest = at;
              ids = ids;
              kept_so = sym (keep-none (is_dropped ids) runs none_dropped);
              evicted_so = rw none_dropped;
            })
      go (d ∷ ds) e =
          rw (e, split_session)
            (record {
              kept = staying;
              latest = rw (lookup-insert, staying_all) (unfold text_eq in refl);
              ids = ids;
              kept_so = refl;
              evicted_so = sym e ∙ ap (map as_run) evicted_all;
            })

  pub compact_session-Kept :
      (sess : Fields) (runs : List Value) (run : Fields) (target : ℕ)
      → lookup (codes "runs") sess ≡ some (array (items_of (runs ++ object run ∷ [])))
      → All (HasOtherId (json_string run (codes "run_id"))) runs
      → Kept runs run (compact_session ops sess target)
  unfolding compact_session
  compact_session-Kept sess runs run target at others =
      let all = runs ++ object run ∷ [] in
      let ids = runs_to_drop ops all target in
      let same = as_values-items_of all in
      let stays : is_dropped ids (object run) ≡ false =
        unfold is_dropped in
        in_set-All (json_string run (codes "run_id")) ids
          (runs_to_drop-latest ops runs (object run) target others) in
      elim (Bool-cases (leb (length all) 1)) [
        | inl e ↦
            let alone = no_other runs (object run) e in
            rw (at, same, e)
              (record {
                kept = runs;
                latest = at;
                ids = [];
                kept_so = rw alone;
                evicted_so = rw alone;
              })
        | inr e ↦ rw (at, same, e) (split_session-Kept sess runs run ids at stays)
      ]
