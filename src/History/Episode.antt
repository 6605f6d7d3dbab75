-- ===== src/History/Episode.antt =====
-- internal/history/episode.go: the typed view of a row, and its digest for the reflection prompt.
pub mod Clip
use cofiswarm_dispatch.Prelude.{
  ℕ, ◌+◌, ◌-◌, ◌/◌, ◌≤◌, Text, codes, is_empty, Option, none, some, List, [], ◌∷◌, ◌++◌, map,
  length, take, get, leb, ltb, if◌then◌else◌, or_empty,
}
use cofiswarm_dispatch.Prelude.Sort.{sort_texts}
use cofiswarm_dispatch.Prelude.Space.{trim_space}
use cofiswarm_dispatch.Prelude.Utf8.{to_valid_utf8}
use cofiswarm_dispatch.Json.{Fields, lookup, json_string, strings_of, as_object}

pub record Episode : Type 0 where
  pub session_id : Text
  pub run_id : Text
  pub source : Text
  pub prompt : Text
  pub final : Text
  pub agents : List (Text × Text)

agents_of : Option Fields → List (Text × Text)
unfolding strings_of
agents_of none = []
agents_of (some m) = strings_of m

unfoldable pub as_episode : Fields → Episode
unfolding agents_of json_string lookup
as_episode row = record {
  session_id = json_string row (codes "session_id");
  run_id = json_string row (codes "run_id");
  source = json_string row (codes "source");
  prompt = json_string row (codes "prompt");
  final = json_string row (codes "final");
  agents = agents_of (as_object (lookup (codes "agents") row));
}

unfoldable pub episodes : List Fields → List Episode
unfolding as_episode
episodes = map as_episode

-- U+2026, three bytes.
abbrev pub ellipsis : Text
ellipsis = 0xE2 ∷ 0x80 ∷ 0xA6 ∷ []

-- The callers pass no negative budget; 0 means no cut.
unfoldable pub clip : Text → ℕ → Text
clip s max_chars =
    if leb max_chars 0
    then s
    else if leb (length s) max_chars
    then s
    else if ltb max_chars 4
    then to_valid_utf8 (take max_chars s)
    else to_valid_utf8 (take (max_chars - 3) s) ++ ellipsis

line : Text → Text → Text
line label body = label ++ body ++ codes "\n"

-- One line for each agent, until the digest is long enough.
agent_lines : ℕ → List (Text × Text) → List Text → Text → Text
agent_lines max_chars agents [] out = out
agent_lines max_chars agents (k ∷ names) out =
    let out' = out ++ line (codes "- " ++ k ++ codes ": ") (clip (or_empty (get k agents)) 200) in
    let more = agent_lines max_chars agents names out' in
    if leb max_chars (length out') then out' else more

names_of : List (Text × Text) → List Text
names_of [] = []
names_of ((k, v) ∷ m) = k ∷ names_of m

unfoldable pub salient : Episode → ℕ → Text
unfolding clip line agent_lines names_of
salient e max_chars =
    let ask =
      if is_empty e.prompt then [] else line (codes "ask: ") (clip e.prompt (max_chars / 3)) in
    let result =
      if is_empty e.final then [] else line (codes "result: ") (clip e.final (max_chars / 2)) in
    clip
      (trim_space (agent_lines max_chars e.agents (sort_texts (names_of e.agents)) (ask ++ result)))
      max_chars
