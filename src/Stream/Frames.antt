-- ===== src/Stream/Frames.antt =====
-- The frames of a replay as one list, and what a connection that breaks has received of it.
use cofiswarm_dispatch.Prelude.{
  ℕ, zero, suc, ◌-◌, Text, codes, Bool, true, false, List, [], ◌∷◌, ◌++◌, append_assoc, append-nil,
  length, take, leb, ◌≡◌, refl, ap, ◌∙◌, arith, map,
}
use cofiswarm_dispatch.Json.{Value}
use cofiswarm_dispatch.Stream.{
  Sink, frame, done_payload, words_of, session_data, token_data, agent_data, metrics_data, and_then,
  emit, emit_done, emit_tokens, emit_flat_replay,
}

-- A connection that takes `room` frames and then breaks: what is left of the room, and what it took.
abbrev pub breaking : (Value → Text) → Sink
breaking marshal = record {
  World = ℕ × List Text;
  write = λ f w. elim w.0 [ zero ↦ (false, w) | suc room ↦ (true, (room, w.1 ++ f ∷ [])) ];
  marshal = marshal;
}

take-nil : (n : ℕ) → take {A = Text} n [] ≡ []
take-nil zero = refl
take-nil (suc n) = refl

module _ (marshal : Value → Text) where
  -- The protocol's sequence: session, one token for each word, agent_done, metrics, done.
  abbrev pub replay_frames : (session_id agent answer : Text) → List Text
  replay_frames session_id agent answer =
      frame (codes "session") (marshal (session_data session_id))
      ∷ (map (λ word. frame (codes "token") (marshal (token_data agent word))) (words_of answer)
          ++ frame (codes "agent_done") (marshal (agent_data agent))
            ∷ frame (codes "metrics") (marshal (metrics_data agent (length (words_of answer))))
            ∷ frame (codes "done") done_payload
            ∷ [])

  -- What the connection ends with.
  abbrev pub received : (room : ℕ) → (before frames : List Text) → Bool × (ℕ × List Text)
  received room before frames =
      (leb (length frames) room, (room - length frames, before ++ take room frames))

  -- The frames one after another.
  all_written : List Text → ℕ × List Text → Bool × (ℕ × List Text)
  all_written [] w = (true, w)
  all_written (f ∷ fs) w =
      and_then (breaking marshal) ((breaking marshal).write f w) (all_written fs)

  all_written-received :
      (frames : List Text) (room : ℕ) (before : List Text)
      → all_written frames (room, before) ≡ received room before frames
  unfolding all_written
  all_written-received [] room before =
      let fits : leb 0 room ≡ true = ground arith in
      let left : room - 0 ≡ room = omega arith in
      let none_sent : take {A = Text} room [] ≡ [] = take-nil room in
      rw (fits, left, none_sent, append-nil before)
  all_written-received (f ∷ fs) zero before =
      let short : leb (suc (length fs)) 0 ≡ false = ground arith in
      let left : 0 - suc (length fs) ≡ 0 = omega arith in rw (short, left, append-nil before)
  all_written-received (f ∷ fs) (suc room) before =
      let same : leb (suc (length fs)) (suc room) ≡ leb (length fs) room = ground arith in
      let left : suc room - suc (length fs) ≡ room - length fs = omega arith in
      rw (same, left)
        (all_written-received fs room (before ++ f ∷ [])
          ∙ ap (λ l. (leb (length fs) room, (room - length fs, l)))
              (append_assoc before (f ∷ []) (take room fs)))

  tokens-all_written :
      (agent : Text) (words : List Text) (rest : List Text)
      (next : ℕ × List Text → Bool × (ℕ × List Text)) (room : ℕ) (before : List Text)
      → ((room : ℕ) (before : List Text) → next (room, before) ≡ all_written rest (room, before))
      → and_then (breaking marshal) (emit_tokens (breaking marshal) agent words (room, before)) next
        ≡ all_written
            (map (λ word. frame (codes "token") (marshal (token_data agent word))) words ++ rest)
            (room, before)
  unfolding all_written emit_tokens
  tokens-all_written agent [] rest next room before h = h room before
  tokens-all_written agent (word ∷ words) rest next zero before h = refl
  tokens-all_written agent (word ∷ words) rest next (suc room) before h =
      tokens-all_written agent words rest next room
        (before ++ frame (codes "token") (marshal (token_data agent word)) ∷ []) h

  -- On a connection that breaks after any number of frames, a replay has sent the beginning of the
  -- protocol's sequence that fits, in order, and reports no error exactly if all of it did.
  pub emit_flat_replay-received :
      (session_id agent answer : Text) (room : ℕ)
      → emit_flat_replay (breaking marshal) session_id agent answer (room, [])
        ≡ received room [] (replay_frames session_id agent answer)
  unfolding emit_flat_replay emit emit_done all_written
  emit_flat_replay-received session_id agent answer zero =
      all_written-received (replay_frames session_id agent answer) zero []
  emit_flat_replay-received session_id agent answer (suc room) =
      let done = frame (codes "done") done_payload in
      let agent_done = frame (codes "agent_done") (marshal (agent_data agent)) in
      let metrics =
        frame (codes "metrics") (marshal (metrics_data agent (length (words_of answer)))) in
      let first = frame (codes "session") (marshal (session_data session_id)) in
      tokens-all_written agent (words_of answer) (agent_done ∷ metrics ∷ done ∷ []) _ room
        (first ∷ []) (λ room before. last_three agent_done metrics done room before)
      ∙ all_written-received (replay_frames session_id agent answer) (suc room) []
    where
      last_three :
          (f g h : Text) (room : ℕ) (before : List Text)
          → and_then (breaking marshal) ((breaking marshal).write f (room, before)) (λ w.
            and_then (breaking marshal) ((breaking marshal).write g w) ((breaking marshal).write h))
            ≡ all_written (f ∷ g ∷ h ∷ []) (room, before)
      last_three f g h zero before = refl
      last_three f g h (suc zero) before = refl
      last_three f g h (suc (suc zero)) before = refl
      last_three f g h (suc (suc (suc room))) before = refl
