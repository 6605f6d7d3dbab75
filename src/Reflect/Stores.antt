-- ===== src/Reflect/Stores.antt =====
-- `Reflect`: what reaches the memory sink.
use cofiswarm_dispatch.Prelude.{
  ℕ, ◌+◌, ◌≤◌, Text, codes, text_eq, is_empty, Bool, true, not, ◌||◌, ◌&&◌, Option, none, some,
  List, [], ◌∷◌, length, if◌then◌else◌, ◌≡◌, refl, arith, Bool-cases, inl, inr,
}
use cofiswarm_dispatch.Prelude.Decimal.{ℤ}
use cofiswarm_dispatch.Prelude.Space.{trim_space}
use cofiswarm_dispatch.History.Episode.{Episode}
use cofiswarm_dispatch.Reflect.{
  Lesson, Error, empty_completion, bad_lessons, is_unusable, Services, parse_lessons, is_valid,
  is_valid_kind, trimmed, system_prompt, digest, episode_chars, store_one, store_lessons, store_raw,
  reflect,
}

pub all_unusable : (err : Error) → is_unusable err ≡ true
all_unusable empty_completion = refl
all_unusable bad_lessons = refl

module _ (services : Services) where
  open services use {World, complete, put, unmarshal}

  -- The lessons put one after another: how many were stored, and the world after them.
  pub put_all : List Lesson → World → ℕ × World
  put_all [] w = (0, w)
  put_all (l ∷ ls) w =
      let (done, w') = put l w in let (n, w'') = put_all ls w' in ((if done then 1 else 0) + n, w'')

  -- A lesson that is kept: one of the three kinds, and a text that is not blank.
  abbrev pub is_lesson : Lesson → Bool
  is_lesson l =
      (text_eq l.kind (codes "fact")
        || text_eq l.kind (codes "preference")
        || text_eq l.kind (codes "procedure"))
      && not (is_empty (trim_space l.text))

  -- What reaches the sink: of the lessons that are kept, each with its text and its id trimmed.
  abbrev pub chosen : List Lesson → List Lesson
  chosen [] = []
  chosen (l ∷ ls) =
      let rest = chosen ls in
      if is_lesson l
      then record { kind = l.kind; text = trim_space l.text; id = trim_space l.id } ∷ rest
      else rest

  length-chosen-le : (ls : List Lesson) → length (chosen ls) ≤ length ls
  length-chosen-le [] = omega arith
  length-chosen-le (l ∷ ls) = elim (Bool-cases (is_lesson l)) [
    | inl e ↦ rw e (omega (arith, length-chosen-le ls))
    | inr e ↦ rw e (omega (arith, length-chosen-le ls))
  ]

  store_lessons_lem :
      (ls : List Lesson) (stored : ℕ) (w : World)
      → store_lessons services ls stored w
        ≡ (stored + (put_all (chosen ls) w).0, (put_all (chosen ls) w).1)
  unfolding store_lessons put_all store_one is_valid is_valid_kind trimmed
  store_lessons_lem [] stored w = ground arith
  store_lessons_lem (l ∷ ls) stored w =
      let w' = (put (trimmed l) w).1 in
      ground (
        arith,
        store_lessons_lem ls stored w,
        store_lessons_lem ls stored w',
        store_lessons_lem ls (stored + 1) w',
      )

  put_all-le : (ls : List Lesson) (w : World) → (put_all ls w).0 ≤ length ls
  unfolding put_all
  put_all-le [] w = omega arith
  put_all-le (l ∷ ls) w = ground (arith, put_all-le ls (put l w).1)

  -- The model's answer on the digest, and the world after it.
  abbrev pub ask : List Episode → ℤ → World → Text × World
  ask es max_chars w = complete system_prompt (digest (episode_chars max_chars) 1 es) w

  -- The lessons of an answer; a blank one, and one with no JSON array of lessons, has none.
  abbrev pub usable : Text → Option (List Lesson)
  usable raw = if is_empty (trim_space raw) then none else parse_lessons unmarshal raw

  store_raw_ok :
      (n : ℕ) (raw : Text) (w : World) (lessons : List Lesson)
      → usable raw ≡ some lessons
      → store_raw services n raw w ≡ (
        record { episodes = n; proposed = length lessons; stored = (put_all (chosen lessons) w).0 },
        none,
        (put_all (chosen lessons) w).1,
      )
  unfolding store_raw
  store_raw_ok n raw w lessons h = ground (arith, store_lessons_lem lessons 0 w)

  -- Where the answer to some episodes holds lessons, `Reflect` succeeds: the sink gets exactly the valid
  -- lessons, trimmed and in order, and nothing else happens after the answer; `Proposed` counts the
  -- lessons, and `Stored` those that the sink accepted, which is at most `Proposed`.
  pub reflect_ok :
      (e : Episode) (es : List Episode) (max_chars : ℤ) (w : World) (lessons : List Lesson)
      → usable (ask (e ∷ es) max_chars w).0 ≡ some lessons
      → (stored : ℕ) × (reflect services (e ∷ es) max_chars w ≡ (
        record { episodes = length (e ∷ es); proposed = length lessons; stored = stored },
        none,
        (put_all (chosen lessons) (ask (e ∷ es) max_chars w).1).1,
      ))
        × (stored ≡ (put_all (chosen lessons) (ask (e ∷ es) max_chars w).1).0)
        × (stored ≤ length lessons)
  unfolding reflect
  reflect_ok e es max_chars w lessons h =
      let (raw, w') = ask (e ∷ es) max_chars w in
      (
        (put_all (chosen lessons) w').0,
        store_raw_ok (length (e ∷ es)) raw w' lessons h,
        refl,
        omega (arith, put_all-le (chosen lessons) w', length-chosen-le lessons),
      )

  store_raw_error :
      (n : ℕ) (raw : Text) (w : World)
      → usable raw ≡ none
      → (err : Error) × (store_raw services n raw w
          ≡ (record { episodes = n; proposed = 0; stored = 0 }, some err, w))
  unfolding store_raw
  store_raw_error n raw w h = elim (Bool-cases (is_empty (trim_space raw))) [
    | inl e ↦ (empty_completion, ground arith)
    | inr e ↦ (bad_lessons, ground arith)
  ]

  -- Where the answer holds no lessons, `Reflect` fails, the failure is one that a retry is taken not to
  -- mend, and nothing reaches the sink.
  pub reflect_error :
      (e : Episode) (es : List Episode) (max_chars : ℤ) (w : World)
      → usable (ask (e ∷ es) max_chars w).0 ≡ none
      → (err : Error) × (reflect services (e ∷ es) max_chars w ≡ (
        record { episodes = length (e ∷ es); proposed = 0; stored = 0 },
        some err,
        (ask (e ∷ es) max_chars w).1,
      ))
        × (is_unusable err ≡ true)
  unfolding reflect
  reflect_error e es max_chars w h =
      let (raw, w') = ask (e ∷ es) max_chars w in
      let (err, same) = store_raw_error (length (e ∷ es)) raw w' h in (err, same, all_unusable err)
