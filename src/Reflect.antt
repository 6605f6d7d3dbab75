-- ===== src/Reflect.antt =====
-- internal/reflect/reflect.go: one reflection over a list of episodes. The model behind `Completer`,
-- the memory behind `MemorySink` and the JSON decoder are parameters.
pub mod Stores
pub mod Pass
pub mod Tests
use cofiswarm_dispatch.Prelude.{
  ℕ, zero, suc, ◌+◌, ◌-◌, Text, codes, text_eq, is_empty, Bool, true, false, not, ◌&&◌, ◌||◌,
  Option, none, some, List, [], ◌∷◌, ◌++◌, length, take, drop, ltb, ◌==◌, if◌then◌else◌,
}
use cofiswarm_dispatch.Prelude.Decimal.{itoa, ℤ, pos, negsuc}
use cofiswarm_dispatch.Prelude.Space.{trim_space}
use cofiswarm_dispatch.History.Episode.{Episode, salient}

pub record Lesson : Type 0 where
  pub kind : Text
  pub text : Text
  pub id : Text

pub record Result : Type 0 where
  pub episodes : ℕ
  pub proposed : ℕ
  pub stored : ℕ

-- Both wrap `ErrUnusable`.
pub data Error : Type 0 where
  empty_completion bad_lessons : Error

abbrev pub is_unusable : Error → Bool
is_unusable empty_completion = true
is_unusable bad_lessons = true

-- What the pass calls. `put` reports whether the lesson was stored.
pub record Services : Type 1 where
  pub World : Type 0
  pub complete : Text → Text → World → Text × World
  pub put : Lesson → World → Bool × World
  pub unmarshal : Text → Option (List Lesson)

-- `strings.IndexByte`; `none` is -1.
unfoldable pub index_byte : Text → ℕ → Option ℕ
index_byte [] c = none
index_byte (x ∷ s) c =
    let rest = index_byte s c in
    if x == c then some 0 else elim rest [ none ↦ none | some i ↦ some (suc i) ]

unfoldable pub last_index_byte : Text → ℕ → Option ℕ
last_index_byte [] c = none
last_index_byte (x ∷ s) c = elim (last_index_byte s c) [
  | some i ↦ some (suc i)
  | none ↦ if x == c then some 0 else none
]

slice_lessons : (Text → Option (List Lesson)) → Text → Option ℕ → Option ℕ → Option (List Lesson)
slice_lessons unmarshal raw none last = none
slice_lessons unmarshal raw (some start) none = none
slice_lessons unmarshal raw (some start) (some last) =
    if ltb last start then none else unmarshal (drop start (take (last + 1) raw))

unfoldable pub parse_lessons : (Text → Option (List Lesson)) → Text → Option (List Lesson)
unfolding slice_lessons
parse_lessons unmarshal raw =
    slice_lessons unmarshal raw (index_byte raw b'[') (last_index_byte raw b']')

unfoldable pub is_valid_kind : Text → Bool
is_valid_kind k =
    text_eq k (codes "fact") || text_eq k (codes "preference") || text_eq k (codes "procedure")

unfoldable pub is_valid : Lesson → Bool
unfolding is_valid_kind
is_valid l = is_valid_kind l.kind && not (is_empty (trim_space l.text))

-- What is handed to the sink.
unfoldable pub trimmed : Lesson → Lesson
trimmed l = record { kind = l.kind; text = trim_space l.text; id = trim_space l.id }

-- U+2014, three bytes.
abbrev em_dash : Text
em_dash = 0xE2 ∷ 0x80 ∷ 0x94 ∷ []

unfoldable pub system_prompt : Text
system_prompt =
    codes
      "You are the Reflection agent for an AI engineering swarm.\nRead the recent interaction episodes and extract durable lessons worth remembering forever "
    ++ em_dash
    ++ codes
        " not\ntransient details. Output ONLY a JSON array (no prose). Each item:\n  {\"kind\": \"fact|preference|procedure\", \"text\": \"<concise lesson>\", \"id\": \"<optional-stable-slug>\"}\n- fact: a stable truth about the project, user, or system.\n- preference: how the user wants things done.\n- procedure: a reusable how-to that worked.\nExtract at most 8 high-value, non-redundant lessons. If nothing is worth remembering, output []."

-- The user turn: one section for each episode, numbered from `i`.
unfoldable pub digest : ℕ → ℕ → List Episode → Text
digest max_chars i [] = []
digest max_chars i (e ∷ es) =
    codes "## Episode "
    ++ itoa i
    ++ codes "\n"
    ++ salient e max_chars
    ++ codes "\n\n"
    ++ digest max_chars (i + 1) es

-- `DefaultEpisodeChars` for a cap that is not positive.
unfoldable pub episode_chars : ℤ → ℕ
episode_chars (negsuc n) = 800
episode_chars (pos n) = if ltb 0 n then n else 800

module _ (services : Services) where
  open services use {World, complete, put, unmarshal}

  -- One round of the loop; an invalid lesson, and one that the sink refuses, is skipped.
  store_one : Lesson → ℕ → World → ℕ × World
  store_one l stored w =
      let (done, w') = put (trimmed l) w in
      if is_valid l then (if done then stored + 1 else stored, w') else (stored, w)

  unfoldable pub store_lessons : List Lesson → ℕ → World → ℕ × World
  unfolding store_one
  store_lessons [] stored w = (stored, w)
  store_lessons (l ∷ ls) stored w =
      let (stored', w') = store_one l stored w in store_lessons ls stored' w'

  -- Lessons from a completion that is not blank.
  store_parsed : ℕ → Option (List Lesson) → World → Result × Option Error × World
  store_parsed n none w = (record { episodes = n; proposed = 0; stored = 0 }, some bad_lessons, w)
  store_parsed n (some lessons) w =
      let (stored, w') = store_lessons lessons 0 w in
      (record { episodes = n; proposed = length lessons; stored = stored }, none, w')

  store_raw : ℕ → Text → World → Result × Option Error × World
  unfolding store_parsed
  store_raw n raw w =
      if is_empty (trim_space raw)
      then (record { episodes = n; proposed = 0; stored = 0 }, some empty_completion, w)
      else store_parsed n (parse_lessons unmarshal raw) w

  unfoldable pub reflect : List Episode → ℤ → World → Result × Option Error × World
  unfolding store_raw
  reflect [] max_chars w = (record { episodes = 0; proposed = 0; stored = 0 }, none, w)
  reflect (e ∷ es) max_chars w =
      let (raw, w') = complete system_prompt (digest (episode_chars max_chars) 1 (e ∷ es)) w in
      store_raw (length (e ∷ es)) raw w'
