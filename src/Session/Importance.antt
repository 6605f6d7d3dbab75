-- ===== src/Session/Importance.antt =====
-- internal/session/importance.go: the score of a text among its peers.
use cofiswarm_dispatch.Prelude.{
  ℕ, ◌+◌, Text, text_eq, is_empty, Bool, false, not, ◌&&◌, ◌||◌, List, [], ◌∷◌, length,
  if◌then◌else◌,
}
use cofiswarm_dispatch.Prelude.Sort.{text_le}
use cofiswarm_dispatch.Prelude.Space.{fields}
use cofiswarm_dispatch.Prelude.Float.{
  Float64, FloatOps, float_of_bits, float_lt, float_le, zero_float,
}

pub record Scored : Type 0 where
  pub name : Text
  pub score : Float64

in_texts : Text → List Text → Bool
in_texts s [] = false
in_texts s (t ∷ ts) = text_eq s t || in_texts s ts

-- The size of the set of tokens.
count_unique : List Text → ℕ
unfolding in_texts
count_unique [] = 0
count_unique (t ∷ ts) = let n = count_unique ts in if in_texts t ts then n else n + 1

before : Scored → Scored → Bool
before x y =
    if not (float_le x.score y.score && float_le y.score x.score)
    then float_lt y.score x.score
    else text_le x.name y.name

insert_scored : Scored → List Scored → List Scored
unfolding before
insert_scored x [] = x ∷ []
insert_scored x (y ∷ ys) =
    let rest = insert_scored x ys in if before x y then x ∷ y ∷ ys else y ∷ rest

module _ (ops : FloatOps) where
  -- The constants are 1.5 and 1.0.
  unfoldable pub norm_score : Text → Float64 → Float64
  norm_score s peer_avg_len =
      if float_le peer_avg_len zero_float || is_empty s
      then zero_float
      else (let v =
            ops.div (ops.of_nat (length s))
              (ops.mul peer_avg_len (float_of_bits 0x3FF8000000000000)) in
          if float_lt v (float_of_bits 0x3FF0000000000000)
          then v
          else float_of_bits 0x3FF0000000000000)

  ratio : List Text → Float64
  unfolding count_unique
  ratio [] = zero_float
  ratio (t ∷ ts) = ops.div (ops.of_nat (count_unique (t ∷ ts))) (ops.of_nat (length (t ∷ ts)))

  unfoldable pub entropy_score : Text → Float64
  unfolding ratio
  entropy_score s = if is_empty s then zero_float else ratio (fields s)

  -- 0.6 and 0.4.
  unfoldable pub importance_score : Text → Float64 → Float64
  unfolding norm_score entropy_score
  importance_score s peer_avg_len =
      ops.add (ops.mul (float_of_bits 0x3FE3333333333333) (norm_score s peer_avg_len))
        (ops.mul (float_of_bits 0x3FD999999999999A) (entropy_score s))

  sum_lengths : Float64 → List (Text × Text) → Float64
  sum_lengths sum [] = sum
  sum_lengths sum ((k, v) ∷ m) = sum_lengths (ops.add sum (ops.of_nat (length v))) m

  rank_all : Float64 → List (Text × Text) → List Scored
  unfolding insert_scored importance_score
  rank_all avg_len [] = []
  rank_all avg_len ((k, v) ∷ m) =
      insert_scored (record { name = k; score = importance_score v avg_len }) (rank_all avg_len m)

  -- Highest score first, ties by name.
  unfoldable pub rank_outputs : List (Text × Text) → List Scored
  unfolding sum_lengths rank_all
  rank_outputs [] = []
  rank_outputs ((k, v) ∷ m) =
      let all = (k, v) ∷ m in
      rank_all (ops.div (sum_lengths zero_float all) (ops.of_nat (length all))) all

  sum_scores : Float64 → List Scored → Float64
  sum_scores sum [] = sum
  sum_scores sum (x ∷ xs) = sum_scores (ops.add sum x.score) xs

  unfoldable pub average_importance : List Scored → Float64
  unfolding sum_scores
  average_importance [] = zero_float
  average_importance (x ∷ xs) =
      ops.div (sum_scores zero_float (x ∷ xs)) (ops.of_nat (length (x ∷ xs)))
