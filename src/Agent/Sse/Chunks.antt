-- ===== src/Agent/Sse/Chunks.antt =====
-- The drainer does not depend on how the network cuts the stream.
use cofiswarm_dispatch.Prelude.{
  ◌==◌, ◌&&◌, ℕ, zero, suc, ◌<◌, Text, codes, has_prefix, Option, none, some, List, [], ◌∷◌, ◌++◌,
  append_assoc, append-nil, length, length-append, length-drop, ◌≡◌, refl, ap, ◌∙◌, arith,
  Bool-cases, Option-cases, inl, inr,
}
use mathlib.Core.List.{flatten}
use cofiswarm_dispatch.Agent.Sse.{
  Drainer, cut_frame, process_frame, split_lines, drain, feed, take_line, take_lines,
}

-- A frame that is complete stays the first one when more bytes arrive.
cut_frame-append :
    (s t frame rest : Text)
    → cut_frame s ≡ some (frame, rest)
    → cut_frame (s ++ t) ≡ some (frame, rest ++ t)
unfolding cut_frame has_prefix
cut_frame-append [] t frame rest h = absurd (cc)
cut_frame-append (c ∷ []) t frame rest h = absurd (ground arith)
cut_frame-append (c ∷ b ∷ s) t frame rest h = elim (Bool-cases ((c == b'\n') && (b == b'\n'))) [
  | inl e ↦ ground arith
  | inr e ↦ elim (Option-cases (cut_frame (b ∷ s))) [
    | inl none_there ↦ absurd (ground arith)
    | inr ((f, r), there) ↦ ground (arith, cut_frame-append (b ∷ s) t f r there)
  ]
]

-- What is left is shorter.
cut_frame-shorter :
    (s frame rest : Text) → cut_frame s ≡ some (frame, rest) → length rest < length s
unfolding cut_frame
cut_frame-shorter [] frame rest h = absurd (cc)
cut_frame-shorter (c ∷ s) frame rest h = elim (Bool-cases (has_prefix (c ∷ s) (codes "\n\n"))) [
  | inl e ↦ ground (arith, length-drop 1 s)
  | inr e ↦ elim (Option-cases (cut_frame s)) [
    | inl none_there ↦ absurd (ground arith)
    | inr ((f, r), there) ↦ ground (arith, cut_frame-shorter s f r there)
  ]
]

abbrev set_buf : Text → Drainer → Drainer
set_buf b d = record d { buf = b }

module _ (delta : Text → Option Text) where
  take_line-set_buf :
      (b : Text) (d : Drainer) (raw : Text)
      → take_line delta (set_buf b d) raw ≡ set_buf b (take_line delta d raw)
  unfolding take_line
  take_line-set_buf b d raw = ground arith

  take_lines-set_buf :
      (b : Text) (d : Drainer) (lines : List Text)
      → take_lines delta (set_buf b d) lines ≡ set_buf b (take_lines delta d lines)
  unfolding take_lines
  take_lines-set_buf b d [] = refl
  take_lines-set_buf b d (line ∷ lines) =
      ap (λ e. take_lines delta e lines) (take_line-set_buf b d line)
      ∙ take_lines-set_buf b (take_line delta d line) lines

  process_frame-set_buf :
      (b : Text) (d : Drainer) (frame : Text)
      → process_frame delta (set_buf b d) frame ≡ set_buf b (process_frame delta d frame)
  unfolding process_frame
  process_frame-set_buf b d frame = take_lines-set_buf b d (split_lines frame)

  drain-some :
      (fuel : ℕ) (buf frame rest : Text) (d : Drainer)
      → cut_frame buf ≡ some (frame, rest)
      → drain delta (suc fuel) buf d ≡ drain delta fuel rest (process_frame delta d frame)
  unfolding drain
  drain-some fuel buf frame rest d e = ground arith

  drain-none :
      (fuel : ℕ) (buf : Text) (d : Drainer)
      → cut_frame buf ≡ none
      → drain delta (suc fuel) buf d ≡ set_buf buf d
  unfolding drain
  drain-none fuel buf d e = ground arith

  -- The buffer of the drainer is not read while it drains another.
  drain-set_buf :
      (fuel : ℕ) (b buf : Text) (d : Drainer)
      → drain delta fuel buf (set_buf b d) ≡ drain delta fuel buf d
  drain-set_buf zero b buf d = unfold drain in refl
  drain-set_buf (suc fuel) b buf d = elim (Option-cases (cut_frame buf)) [
    | inl e ↦ rw (drain-none fuel buf (set_buf b d) e, drain-none fuel buf d e)
    | inr ((frame, rest), e) ↦
        rw (drain-some fuel buf frame rest (set_buf b d) e, drain-some fuel buf frame rest d e)
          (ap (drain delta fuel rest) (process_frame-set_buf b d frame)
            ∙ drain-set_buf fuel b rest (process_frame delta d frame))
  ]

  -- Any fuel above the length of the buffer gives the same result.
  drain_fuel :
      (m n : ℕ) (buf : Text) (d : Drainer)
      → length buf < m
      → length buf < n
      → drain delta m buf d ≡ drain delta n buf d
  drain_fuel zero n buf d hm hn = absurd (omega arith)
  drain_fuel (suc m) zero buf d hm hn = absurd (omega arith)
  drain_fuel (suc m) (suc n) buf d hm hn = elim (Option-cases (cut_frame buf)) [
    | inl e ↦ rw (drain-none m buf d e, drain-none n buf d e)
    | inr ((frame, rest), e) ↦
        let shorter = cut_frame-shorter buf frame rest e in
        rw (drain-some m buf frame rest d e, drain-some n buf frame rest d e)
          (drain_fuel m n rest (process_frame delta d frame) (omega arith) (omega arith))
  ]

  -- Draining a buffer and feeding more is draining both at once.
  feed-drain :
      (n : ℕ) (buf t : Text) (d : Drainer)
      → length buf < n
      → feed delta (drain delta n buf d) t ≡ drain delta (suc (length (buf ++ t))) (buf ++ t) d
  unfolding feed
  feed-drain zero buf t d h = absurd (omega arith)
  feed-drain (suc n) buf t d h = elim (Option-cases (cut_frame buf)) [
    | inl e ↦ rw (drain-none n buf d e) (drain-set_buf (suc (length (buf ++ t))) buf (buf ++ t) d)
    | inr ((frame, rest), e) ↦
        let shorter = cut_frame-shorter buf frame rest e in
        let d' = process_frame delta d frame in
        rw
          (
            drain-some n buf frame rest d e,
            drain-some (length (buf ++ t)) (buf ++ t) frame (rest ++ t) d
                (cut_frame-append buf t frame rest e),
          )
          (feed-drain n rest t d' (omega arith)
            ∙ drain_fuel (suc (length (rest ++ t))) (length (buf ++ t)) (rest ++ t) d' (omega arith)
                (omega (arith, length-append rest t, length-append buf t)))
  ]

  -- Two chunks fed one after the other have the effect of their concatenation: the same text, the same
  -- calls of `onChunk`, the same last payload, and the same bytes held back.
  pub feed-feed : (d : Drainer) (a b : Text) → feed delta (feed delta d a) b ≡ feed delta d (a ++ b)
  feed-feed d a b =
      unfold feed in
      feed-drain (suc (length (d.buf ++ a))) (d.buf ++ a) b d (omega arith)
      ∙ ap (λ s. drain delta (suc (length s)) s d) (append_assoc d.buf a b)

  abbrev pub feed_all : List Text → Drainer → Drainer
  feed_all [] d = d
  feed_all (c ∷ cs) d = feed_all cs (feed delta d c)

  -- However the network cuts a stream into chunks, feeding them all leaves the drainer as feeding the
  -- whole stream at once does.
  pub feed_all-flatten :
      (c : Text) (cs : List Text) (d : Drainer)
      → feed_all (c ∷ cs) d ≡ feed delta d (flatten (c ∷ cs))
  unfolding flatten
  feed_all-flatten c [] d = let e : c ++ [] ≡ c = append-nil c in rw e
  feed_all-flatten c (e ∷ cs) d =
      ap (feed_all cs) (feed-feed d c e)
      ∙ feed_all-flatten (c ++ e) cs d
      ∙ ap (feed delta d) (append_assoc c e (flatten cs))
