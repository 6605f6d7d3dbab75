-- ===== src/Reflect/Pass/Outage.antt =====
-- A reflector that cannot be reached. The agent client reports it as text, which the pass reads as the
-- model's answer.
use cofiswarm_dispatch.Prelude.{
  ℕ, ◌+◌, ◌≤◌, Text, codes, is_empty, none, some, List, [], ◌∷◌, ◌++◌, keep, length, All,
  All-append, All-map, ◌≡◌, ◌≢◌, refl, arith, Bool-cases, inl, inr,
}
use cofiswarm_dispatch.Prelude.Decimal.{ℤ, pos, negsuc, itoa, itoa-All}
use cofiswarm_dispatch.Prelude.Space.{trim_space}
use cofiswarm_dispatch.Disk.{Write}
use cofiswarm_dispatch.History.{Codec, Store, since}
use cofiswarm_dispatch.History.Episode.{Episode, episodes}
use cofiswarm_dispatch.Agent.{Agent, not_responding, decimal}
use cofiswarm_dispatch.Reflect.{Error, Services, index_byte, parse_lessons}
use cofiswarm_dispatch.Reflect.Stores.{ask, usable, reflect_error}
use cofiswarm_dispatch.Reflect.Pass.{pass, cap_episodes, is_new}

abbrev pub NoBracket : Text → Type 0
NoBracket = All (λ c. c ≢ b'[')

index_byte-NoBracket : (s : Text) → NoBracket s → index_byte s b'[' ≡ none
unfolding index_byte
index_byte-NoBracket [] h = refl
index_byte-NoBracket (c ∷ s) h = ground (arith, index_byte-NoBracket s h.1)

itoa-NoBracket : (n : ℕ) → NoBracket (itoa n)
itoa-NoBracket n =
    All-map (λ c. (b'0' ≤ c) × (c ≤ b'9')) (λ c. c ≢ b'[') (itoa n) (λ c h. omega arith)
      (itoa-All n)

decimal-NoBracket : (i : ℤ) → NoBracket (decimal i)
unfolding decimal
decimal-NoBracket (pos n) = itoa-NoBracket n
decimal-NoBracket (negsuc n) = (omega arith, itoa-NoBracket (n + 1))

not_responding-NoBracket : (a : Agent) → NoBracket a.name → NoBracket (not_responding a)
unfolding not_responding
not_responding-NoBracket a h =
    let P : ℕ → Type 0 = λ c. c ≢ b'[' in
    let start : Text = codes "Agent " ++ a.name in
    let middle : Text = start ++ codes " (Port " in
    All-append P (middle ++ decimal a.port) (codes ") is not responding.")
      (All-append P middle (decimal a.port)
        (All-append P start (codes " (Port ") (All-append P (codes "Agent ") a.name (omega arith) h)
          (omega arith))
        (decimal-NoBracket a.port))
      (omega arith)

module _ (services : Services) (codec : Codec) where
  open services use {World, complete, unmarshal}

  usable-NoBracket : (raw : Text) → NoBracket raw → usable services raw ≡ none
  unfolding parse_lessons
  usable-NoBracket raw h =
      let no_start = index_byte-NoBracket raw h in
      elim (Bool-cases (is_empty (trim_space raw))) [ inl e ↦ rw e | inr e ↦ rw (e, no_start) ]

  -- Where there are new episodes and the answer has no bracket, the pass fails, stores no lesson, and still
  -- moves the cursor to the end of the log.
  pub pass_unusable :
      (w : Write) (s : Store) (cursor : ℕ) (max_episodes max_chars : ℤ) (world : World)
      (e : Episode) (es : List Episode)
      → cap_episodes max_episodes (keep is_new (episodes (since (pos cursor) s).0)) ≡ e ∷ es
      → NoBracket (ask services (e ∷ es) max_chars world).0
      → (err : Error) × (pass services codec w s cursor max_episodes max_chars world ≡ record {
        result = record { episodes = length (e ∷ es); proposed = 0; stored = 0 };
        next = length s.rows;
        error = some err;
        store = s;
        world = (ask services (e ∷ es) max_chars world).1;
      })
  unfolding pass
  pass_unusable w s cursor max_episodes max_chars world e es window down =
      let (err, failed, unusable) =
        reflect_error services e es max_chars world (usable-NoBracket _ down) in
      (err, rw (window, failed, unusable) (unfold since in refl))

  -- Where there are new episodes and the reflector's answer is the client's report that an agent (with no
  -- bracket in its name) does not respond, the pass fails, stores no lesson, and still moves the cursor
  -- to the end of the log.
  pub pass_outage :
      (w : Write) (s : Store) (cursor : ℕ) (max_episodes max_chars : ℤ) (world : World) (a : Agent)
      (e : Episode) (es : List Episode)
      → NoBracket a.name
      → cap_episodes max_episodes (keep is_new (episodes (since (pos cursor) s).0)) ≡ e ∷ es
      → (ask services (e ∷ es) max_chars world).0 ≡ not_responding a
      → (err : Error) × (pass services codec w s cursor max_episodes max_chars world ≡ record {
        result = record { episodes = length (e ∷ es); proposed = 0; stored = 0 };
        next = length s.rows;
        error = some err;
        store = s;
        world = (ask services (e ∷ es) max_chars world).1;
      })
  pass_outage w s cursor max_episodes max_chars world a e es h window down =
      pass_unusable w s cursor max_episodes max_chars world e es window
        (rw down (not_responding-NoBracket a h))
