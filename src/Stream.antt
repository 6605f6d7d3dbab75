-- ===== src/Stream.antt =====
-- internal/stream/events.go, sse.go and flat_replay.go: the events that dispatch sends itself. `true` is a
-- nil error; a frame is written whole or not at all; the response writer and `json.Marshal` are parameters. (Marshalling such data does not fail.)
pub mod Frames
pub mod Tests
use cofiswarm_dispatch.Prelude.{ℕ, Text, codes, Bool, true, false, List, [], ◌∷◌, ◌++◌, length}
use cofiswarm_dispatch.Prelude.Decimal.{ℤ, pos}
use cofiswarm_dispatch.Prelude.Space.{fields}
use cofiswarm_dispatch.Json.{Value, text, int, object, Fields, end, field}

pub record Sink : Type 1 where
  pub World : Type 0
  pub write : Text → World → Bool × World
  pub marshal : Value → Text

abbrev pub done_payload : Text
done_payload = codes "[DONE]"

unfoldable pub frame : (event payload : Text) → Text
frame event payload = codes "event: " ++ event ++ codes "\ndata: " ++ payload ++ codes "\n\n"

unfoldable pub words_of : Text → List Text
words_of answer = elim (fields answer) [ [] ↦ codes "(empty)" ∷ [] | w ∷ ws ↦ w ∷ ws ]

unfoldable pub session_data : Text → Value
session_data session_id = object (field (codes "session_id") (text session_id) end)

unfoldable pub token_data : (agent word : Text) → Value
token_data agent word =
    object
      (field (codes "agent") (text agent) (field (codes "delta") (text (word ++ codes " ")) end))

unfoldable pub agent_data : Text → Value
agent_data agent = object (field (codes "agent") (text agent) end)

unfoldable pub metrics_data : Text → ℕ → Value
metrics_data agent tokens = object (
    field agent
      (object (
        field (codes "calls") (int (pos 1)) (
          field (codes "total_ms") (int (pos 0))
            (field (codes "completion_tokens") (int (pos tokens)) end))))
      end)

-- `cause` is the text of the error; a mode's name is quoted as it is.
unfoldable pub error_data : (quote : Text → Text) → (mode cause : Text) → Value
error_data quote mode cause = object (
    field (codes "mode") (text mode) (
      field (codes "error") (text (codes "mode " ++ quote mode ++ codes " unavailable: " ++ cause))
        end))

module _ (sink : Sink) where
  open sink use {World, write, marshal}

  -- `if err := ...; err != nil { return err }`.
  abbrev pub and_then : Bool × World → (World → Bool × World) → Bool × World
  and_then (true, w) next = next w
  and_then (false, w) next = (false, w)

  -- `Emit` of a value, and of the done event's string.
  unfoldable pub emit : Text → Value → World → Bool × World
  emit event data_ w = write (frame event (marshal data_)) w

  unfoldable pub emit_done : World → Bool × World
  emit_done w = write (frame (codes "done") done_payload) w

  unfoldable pub emit_tokens : Text → List Text → World → Bool × World
  unfolding emit
  emit_tokens agent [] w = (true, w)
  emit_tokens agent (word ∷ words) w =
      let (ok, w') = emit (codes "token") (token_data agent word) w in
      let (more, w'') = emit_tokens agent words w' in
      elim ok [ true ↦ (more, w'') | false ↦ (false, w') ]

  unfoldable pub emit_flat_replay : (session_id agent answer : Text) → World → Bool × World
  unfolding emit emit_done emit_tokens
  emit_flat_replay session_id agent answer w =
      let words = words_of answer in
      and_then (emit (codes "session") (session_data session_id) w) (λ u.
        and_then (emit_tokens agent words u) (λ v.
          and_then (emit (codes "agent_done") (agent_data agent) v) (λ x.
            and_then (emit (codes "metrics") (metrics_data agent (length words)) x) emit_done)))

  unfoldable pub emit_error :
      (quote : Text → Text) → (session_id mode cause : Text) → World → Bool × World
  unfolding emit emit_done
  emit_error quote session_id mode cause w =
      and_then (emit (codes "session") (session_data session_id) w)
        (λ u. and_then (emit (codes "error") (error_data quote mode cause) u) emit_done)
