-- ===== src/Synthesis/Fit/Bounds.antt =====
-- The size of a prompt.
use cofiswarm_dispatch.Prelude.{
  ℕ, ◌+◌, ◌-◌, ◌/◌, ◌≤◌, ◌<◌, Text, List, [], ◌∷◌, ◌++◌, length, length-append, length-take, take,
  All-take, ltb, leb, ◌≡◌, refl, arith, Bool-cases, inl, inr,
}
use cofiswarm_dispatch.Prelude.Utf8.{
  to_valid_utf8, length-to_valid_utf8-le, IsAscii, to_valid_utf8-IsAscii,
}
use cofiswarm_dispatch.Synthesis.{truncate_note, trunc_marker}
use cofiswarm_dispatch.Synthesis.Fit.{
  Part, headers_len, bodies_len, join_parts, join, total_len, overhead, fit_bodies, aggressive,
  assemble_fit,
}

pub length-trunc_marker : length trunc_marker ≡ 47
unfolding trunc_marker
length-trunc_marker = refl

-- The marker is added to a cut of one byte less than the cap.
pub length-truncate_note-le : (s : Text) (n : ℕ) → length (truncate_note s n) ≤ n + 46
unfolding truncate_note
length-truncate_note-le s n = ground (
  arith,
  length-to_valid_utf8-le (take n s),
  length-to_valid_utf8-le (take (n - 1) s),
  length-take n s,
  length-take (n - 1) s,
  length-append (to_valid_utf8 (take (n - 1) s)) trunc_marker,
  length-trunc_marker,
)

-- An ASCII text that is longer than a cap above 80 is cut to 46 bytes more than the cap.
pub length-truncate_note :
    (s : Text) (n : ℕ) → IsAscii s → 80 < n → n < length s → length (truncate_note s n) ≡ n + 46
unfolding truncate_note
length-truncate_note s n ascii big long =
    let same = to_valid_utf8-IsAscii (take (n - 1) s) (All-take (λ c. c < 0x80) (n - 1) s ascii) in
    ground (
      arith,
      same,
      length-take (n - 1) s,
      length-append (take (n - 1) s) trunc_marker,
      length-trunc_marker,
    )

length-join_parts : (ps : List Part) → length (join_parts ps) ≡ headers_len ps + bodies_len ps
unfolding join_parts headers_len bodies_len
length-join_parts [] = refl
length-join_parts ((h, b) ∷ ps) = omega (
  arith,
  length-append h (b ++ join_parts ps),
  length-append b (join_parts ps),
  length-join_parts ps,
)

pub length-join :
    (prefix : Text) (ps : List Part) (footer : Text)
    → length (join prefix ps footer) ≡ total_len prefix ps footer
unfolding join total_len
length-join prefix ps footer = omega (
  arith,
  length-append prefix (join_parts ps ++ footer),
  length-append (join_parts ps) footer,
  length-join_parts ps,
)

-- A prompt is at most 46 bytes longer than its budget, whatever the blocks are.
pub length-assemble_fit-le :
    (prefix : Text) (ps : List Part) (footer : Text) (max_total : ℕ)
    → length (assemble_fit prefix ps footer max_total) ≤ max_total + 46
unfolding assemble_fit
length-assemble_fit-le prefix ps footer max_total =
    let out = join prefix (fit_bodies (max_total - overhead prefix ps footer) ps) footer in
    let tight = join (truncate_note prefix (max_total / 3)) (aggressive ps) footer in
    elim (Bool-cases (leb max_total (overhead prefix ps footer + 16))) [
      | inl e ↦ rw e (length-truncate_note-le tight max_total)
      | inr e ↦ rw e (elim (Bool-cases (leb (total_len prefix ps footer) max_total)) [
        | inl f ↦ rw f (ground (arith, length-join prefix ps footer))
        | inr f ↦ rw f (elim (Bool-cases (ltb max_total (length out))) [
          | inl g ↦ rw g (length-truncate_note-le out max_total)
          | inr g ↦ rw g (ground arith)
        ])
      ])
    ]
