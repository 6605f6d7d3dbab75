-- ===== src/Synthesis/Fit/Exact.antt =====
-- The proportional cut: how the room is shared out, and what the cut bodies come to.
use cofiswarm_dispatch.Prelude.{
  ℕ, ◌+◌, ◌-◌, ◌*◌, ◌≤◌, ◌<◌, min, Text, List, [], ◌∷◌, length, All, ltb, ◌≡◌, refl, ap, arith,
  Bool-cases, inl, inr, if◌then◌else◌, ltb→lt, lt→ltb,
}
use cofiswarm_dispatch.Prelude.Utf8.{IsAscii}
use cofiswarm_dispatch.Synthesis.{truncate_note}
use cofiswarm_dispatch.Synthesis.Fit.{
  Part, headers_len, bodies_len, join, total_len, overhead, share, shares, claimed, spread,
  trim_bodies, fit_bodies, assemble_fit,
}
use cofiswarm_dispatch.Synthesis.Fit.Bounds.{length-truncate_note, length-join}

-- One allocation for each part.
abbrev pub SameLength : List Part → List ℕ → Type 0
SameLength [] [] = Unit
SameLength (p ∷ ps) (a ∷ as_) = SameLength ps as_
SameLength [] (a ∷ as_) = ⊥
SameLength (p ∷ ps) [] = ⊥

claimed-le : (ps : List Part) (as_ : List ℕ) → claimed ps as_ ≤ bodies_len ps
unfolding claimed bodies_len
claimed-le [] as_ = omega arith
claimed-le ((hd, b) ∷ ps) [] = omega arith
claimed-le ((hd, b) ∷ ps) (a ∷ as_) = omega (arith, claimed-le ps as_)

-- Handing out the slack wastes none of it: what the bodies then claim is what they claimed before and the
-- slack, or all of the bodies if that is less. There is one share for each body.
pub claimed-spread :
    (slack : ℕ) (ps : List Part) (as_ : List ℕ)
    → SameLength ps as_
    → claimed ps (spread slack ps as_) ≡ min (bodies_len ps) (claimed ps as_ + slack)
unfolding claimed spread bodies_len
claimed-spread slack [] [] h = omega arith
claimed-spread slack [] (a ∷ as_) h = absurd h
claimed-spread slack (p ∷ ps) [] h = absurd h
claimed-spread slack ((hd, b) ∷ ps) (a ∷ as_) h = elim (Bool-cases (ltb a (length b))) [
  | inl e ↦
      let lt = ltb→lt a (length b) e in
      rw e (
        omega
          (arith, claimed-spread (slack - min slack (length b - a)) ps as_ h, claimed-le ps as_))
  | inr e ↦
      let ge : length b ≤ a = ground arith in
      rw e (omega (arith, claimed-spread (slack - 0) ps as_ h))
]

shares-SameLength :
    (room total_body : ℕ) (ps : List Part) → SameLength ps (shares room total_body ps)
unfolding shares
shares-SameLength room total_body [] = tt
shares-SameLength room total_body ((hd, b) ∷ ps) = shares-SameLength room total_body ps

spread-SameLength :
    (slack : ℕ) (ps : List Part) (as_ : List ℕ)
    → SameLength ps as_
    → SameLength ps (spread slack ps as_)
unfolding spread
spread-SameLength slack [] [] h = tt
spread-SameLength slack [] (a ∷ as_) h = absurd h
spread-SameLength slack (p ∷ ps) [] h = absurd h
spread-SameLength slack ((hd, b) ∷ ps) (a ∷ as_) h =
    spread-SameLength (slack - (if ltb a (length b) then min slack (length b - a) else 0)) ps as_ h

abbrev AtLeast128 : List ℕ → Type 0
AtLeast128 = All (λ a. 128 ≤ a)

shares-AtLeast128 : (room total_body : ℕ) (ps : List Part) → AtLeast128 (shares room total_body ps)
unfolding shares share
shares-AtLeast128 room total_body [] = tt
shares-AtLeast128 room total_body ((hd, b) ∷ ps) =
    (ground arith, shares-AtLeast128 room total_body ps)

spread-AtLeast128 :
    (slack : ℕ) (ps : List Part) (as_ : List ℕ) → AtLeast128 as_ → AtLeast128 (spread slack ps as_)
unfolding spread
spread-AtLeast128 slack [] as_ h = h
spread-AtLeast128 slack (p ∷ ps) [] h = tt
spread-AtLeast128 slack ((hd, b) ∷ ps) (a ∷ as_) h = (
  omega (arith, h.0),
  spread-AtLeast128 (slack - (if ltb a (length b) then min slack (length b - a) else 0)) ps as_ h.1,
)

abbrev pub AllAscii : List Part → Type 0
AllAscii = All (λ p. IsAscii p.1)

-- How many bodies are longer than their shares.
over : List Part → List ℕ → ℕ
over ((hd, b) ∷ ps) (a ∷ as_) = (if ltb a (length b) then 1 else 0) + over ps as_
over [] as_ = 0
over (p ∷ ps) [] = 0

bodies_len-trim_bodies :
    (ps : List Part) (as_ : List ℕ)
    → SameLength ps as_
    → AllAscii ps
    → AtLeast128 as_
    → bodies_len (trim_bodies ps as_) ≡ claimed ps as_ + 46 * over ps as_
unfolding bodies_len trim_bodies claimed over
bodies_len-trim_bodies [] [] h ascii big = omega arith
bodies_len-trim_bodies [] (a ∷ as_) h ascii big = absurd h
bodies_len-trim_bodies (p ∷ ps) [] h ascii big = absurd h
bodies_len-trim_bodies ((hd, b) ∷ ps) (a ∷ as_) h ascii big =
    let rest = bodies_len-trim_bodies ps as_ h ascii.1 big.1 in
    elim (Bool-cases (ltb a (length b))) [
      | inl e ↦
          let lt = ltb→lt a (length b) e in
          let cut = length-truncate_note b a ascii.0 (omega (arith, big.0)) lt in rw e (omega arith)
      | inr e ↦ let ge : length b ≤ a = ground arith in rw e (omega arith)
    ]

over-pos :
    (ps : List Part) (as_ : List ℕ)
    → SameLength ps as_
    → claimed ps as_ < bodies_len ps
    → 0 < over ps as_
unfolding bodies_len claimed over
over-pos [] [] h lt = omega arith
over-pos [] (a ∷ as_) h lt = absurd h
over-pos (p ∷ ps) [] h lt = absurd h
over-pos ((hd, b) ∷ ps) (a ∷ as_) h lt = elim (Bool-cases (ltb a (length b))) [
  | inl e ↦ rw e (omega arith)
  | inr e ↦
      let ge : length b ≤ a = ground arith in
      rw e (let rest = over-pos ps as_ h (omega arith) in omega arith)
]

-- Where ASCII bodies do not fit the room and their shares, with the floor of 128 bytes, do, the cut
-- bodies still exceed the room by 46 bytes at least: the marker is not counted in the shares.
pub fit_bodies_over :
    (room : ℕ) (ps : List Part)
    → AllAscii ps
    → room < bodies_len ps
    → claimed ps (shares room (bodies_len ps) ps) ≤ room
    → room + 46 ≤ bodies_len (fit_bodies room ps)
unfolding fit_bodies
fit_bodies_over room ps ascii tight fits =
    let alloc = shares room (bodies_len ps) ps in
    let slack = room - claimed ps alloc in
    let final = spread slack ps alloc in
    let one_each = shares-SameLength room (bodies_len ps) ps in
    let same = spread-SameLength slack ps alloc one_each in
    let exact = claimed-spread slack ps alloc one_each in
    let big = spread-AtLeast128 slack ps alloc (shares-AtLeast128 room (bodies_len ps) ps) in
    let cut = bodies_len-trim_bodies ps final same ascii big in
    let some_over = over-pos ps final same (omega arith) in
    rw (lt→ltb room (bodies_len ps) tight) (omega arith)

headers_len-trim_bodies :
    (ps : List Part) (as_ : List ℕ) → headers_len (trim_bodies ps as_) ≡ headers_len ps
unfolding headers_len trim_bodies
headers_len-trim_bodies [] as_ = refl
headers_len-trim_bodies ((hd, b) ∷ ps) [] = refl
headers_len-trim_bodies ((hd, b) ∷ ps) (a ∷ as_) =
    ap (λ n. length hd + n) (headers_len-trim_bodies ps as_)

headers_len-fit_bodies :
    (room : ℕ) (ps : List Part) → headers_len (fit_bodies room ps) ≡ headers_len ps
unfolding fit_bodies
headers_len-fit_bodies room ps = elim (Bool-cases (ltb room (bodies_len ps))) [
  | inl e ↦ rw e (headers_len-trim_bodies ps _)
  | inr e ↦ rw e
]

-- Where ASCII blocks do not fit the budget, the fixed parts and 16 bytes do, and the shares of the
-- bodies, with their floor of 128 bytes, fit the room that is left, the prompt made of the cut bodies
-- exceeds the budget by 46 bytes at least, and so it is cut once more to the budget, at its end, where
-- the footer stands.
pub assemble_fit_cut_again :
    (prefix : Text) (ps : List Part) (footer : Text) (max_total : ℕ)
    → AllAscii ps
    → overhead prefix ps footer + 16 < max_total
    → max_total < total_len prefix ps footer
    → claimed ps (shares (max_total - overhead prefix ps footer) (bodies_len ps) ps)
      ≤ max_total - overhead prefix ps footer
    → let out = join prefix (fit_bodies (max_total - overhead prefix ps footer) ps) footer in
      (max_total + 46 ≤ length out)
      × (assemble_fit prefix ps footer max_total ≡ truncate_note out max_total)
unfolding total_len overhead
assemble_fit_cut_again prefix ps footer max_total ascii room_left tight fits =
    let room = max_total - overhead prefix ps footer in
    let out = join prefix (fit_bodies room ps) footer in
    let over_room = fit_bodies_over room ps ascii (omega arith) fits in
    let size = length-join prefix (fit_bodies room ps) footer in
    let heads = headers_len-fit_bodies room ps in
    let long : max_total + 46 ≤ length out = omega arith in
    (long, unfold assemble_fit in ground arith)
