-- ===== src/Httpapi/Reflection/Adapters/Refused.antt =====
-- A reflector that cannot be reached, from the connection to the cursor file.
use cofiswarm_dispatch.Prelude.{
  ℕ, ◌≤◌, Text, codes, Bool, Option, some, List, ◌∷◌, ◌++◌, keep, length, All-append, ◌≡◌, ◌≢◌, ap,
  ◌∙◌, arith,
}
use cofiswarm_dispatch.Prelude.Decimal.{ℤ, pos, max_int}
use cofiswarm_dispatch.Disk.{File, Write, wrote}
use cofiswarm_dispatch.Agent.{Agent, HasSmallCap}
use cofiswarm_dispatch.Agent.Client.{Net, Client, Request, no_connection}
use cofiswarm_dispatch.Agent.Client.Refused.{connection_error, call_with_system-refused}
use cofiswarm_dispatch.Backend.Router.{Router}
use cofiswarm_dispatch.History
use cofiswarm_dispatch.History.{since}
use cofiswarm_dispatch.History.Episode.{Episode, episodes}
use cofiswarm_dispatch.Rag.{Settings}
use cofiswarm_dispatch.Reflect.{Lesson, Error, system_prompt, digest, episode_chars}
use cofiswarm_dispatch.Reflect.Pass.{tick, load_cursor, is_new, cap_episodes}
use cofiswarm_dispatch.Reflect.Pass.Outage.{NoBracket, pass_unusable}
use cofiswarm_dispatch.Reflect.Pass.Window.{tick-cursor}
use cofiswarm_dispatch.Httpapi.{Deps, World}
use cofiswarm_dispatch.Httpapi.Reflection.Adapters.{complete, completed, reflect_services}

connection_error-NoBracket :
    (a : Agent) (e : Text) → NoBracket a.name → NoBracket e → NoBracket (connection_error a e)
connection_error-NoBracket a e named told =
    let P : ℕ → Type 0 = λ c. c ≢ b'[' in
    let start : Text = codes "Connection Error (" ++ a.name in
    All-append P (start ++ codes "): ") e
      (All-append P start (codes "): ")
        (All-append P (codes "Connection Error (") a.name (omega arith) named) (omega arith))
      told

module _ (deps : Deps) (net : Net) (metal : Bool) (client : Client) (cfg : Settings) (a : Agent)
    (unmarshal : Text → Option (List Lesson)) (e : Text)
    (refused : (req : Request) (w : net.World) → (net.post req w).0 ≡ no_connection e) where
  -- The model's answer is the text of the error, and only the router and the agents' network change.
  complete-refused :
      (system user : Text) (r : Router) (w : net.World) (d : World deps)
      → HasSmallCap a
      → (r' : Router) × (w' : net.World) × (complete deps net metal client cfg a system user
            (some (r, w, d))
          ≡ (connection_error a e, some (r', w', d)))
  unfolding complete completed
  complete-refused system user r w d small =
      let (out, called, so) =
        call_with_system-refused net deps.ops e refused metal client a system user r w small in
      (out.1, out.2, rw (called, so))

  -- On a network that refuses every connection to the agents, with an error and a reflector's name that hold no
  -- opening bracket, and a reflector whose maximum of input tokens, if it is positive, is a number whose product with
  -- four fits an int, a tick that finds new episodes, with a cursor write that succeeds and a log whose length
  -- fits an int: it fails, appends nothing to the log and asks nothing of the memory or the rest of
  -- the network; and still the cursor file reads as the length of the log, so that the episodes are passed over.
  pub tick_refused :
      (codec : History.Codec) (w : Write) (s : History.Store) (file : File)
      (max_episodes max_chars : ℤ) (r : Router) (world : net.World) (d : World deps) (ep : Episode)
      (eps : List Episode)
      → HasSmallCap a
      → NoBracket a.name
      → NoBracket e
      → length s.rows ≤ max_int
      → cap_episodes max_episodes (keep is_new (episodes (since (pos (load_cursor file)) s).0))
        ≡ ep ∷ eps
      → let (p, file') =
          tick
            (reflect_services deps net metal client cfg a unmarshal)
            codec
            w
            wrote
            s
            file
            max_episodes
            max_chars
            (some (r, world, d)) in
        (err : Error) × (p.error ≡ some err)
        × (p.result.stored ≡ 0)
        × (p.store ≡ s)
        × (r' : Router) × (world' : net.World) × (p.world ≡ some (r', world', d))
        × (load_cursor file' ≡ length s.rows)
  unfolding tick
  tick_refused codec w s file max_episodes max_chars r world d ep eps small named told fits window =
      let services = reflect_services deps net metal client cfg a unmarshal in
      let (r', world', asked) =
        complete-refused system_prompt (digest (episode_chars max_chars) 1 (ep ∷ eps)) r world d
          small in
      let (err, passed) =
        pass_unusable services codec w s (load_cursor file) max_episodes max_chars
          (some (r, world, d)) ep eps window
          (rw asked (connection_error-NoBracket a e named told)) in
      (
        err,
        ap (λ p. p.error) passed,
        ap (λ p. p.result.stored) passed,
        ap (λ p. p.store) passed,
        r',
        world',
        ap (λ p. p.world) passed ∙ ap (λ x. x.1) asked,
        tick-cursor services codec w s file max_episodes max_chars (some (r, world, d)) fits,
      )
