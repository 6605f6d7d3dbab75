-- ===== src/Reflect/Pass/Worlds.antt =====
-- What the model and the memory keep of the world, a tick keeps.
use cofiswarm_dispatch.Prelude.{
  ℕ, Text, Option, none, some, List, [], ◌∷◌, is_empty, length, Bool-cases, inl, inr,
}
use cofiswarm_dispatch.Prelude.Decimal.{ℤ}
use cofiswarm_dispatch.Prelude.Space.{trim_space}
use cofiswarm_dispatch.Disk.{File, Write}
use cofiswarm_dispatch.History.{Codec, Store}
use cofiswarm_dispatch.History.Episode.{Episode}
use cofiswarm_dispatch.Reflect.{
  Lesson, Result, Error, Services, parse_lessons, is_valid, trimmed, system_prompt, digest,
  episode_chars, store_one, store_lessons, store_parsed, store_raw, reflect,
}
use cofiswarm_dispatch.Reflect.Pass.{finish, run_window, pass, tick}

module _ (services : Services) (Q : services.World → Type 0)
    (asks : (system user : Text) (w : services.World) → Q w → Q (services.complete system user w).1)
    (puts : (l : Lesson) (w : services.World) → Q w → Q (services.put l w).1) where
  open services use {World, complete, unmarshal}

  store_one-Q : (l : Lesson) (stored : ℕ) (w : World) → Q w → Q (store_one services l stored w).1
  unfolding store_one
  store_one-Q l stored w q = elim (Bool-cases (is_valid l)) [
    | inl e ↦ rw e (puts (trimmed l) w q)
    | inr e ↦ rw e q
  ]

  store_lessons-Q :
      (ls : List Lesson) (stored : ℕ) (w : World) → Q w → Q (store_lessons services ls stored w).1
  unfolding store_lessons
  store_lessons-Q [] stored w q = q
  store_lessons-Q (l ∷ ls) stored w q =
      let (stored', w') = store_one services l stored w in
      store_lessons-Q ls stored' w' (store_one-Q l stored w q)

  store_parsed-Q :
      (n : ℕ) (ls : Option (List Lesson)) (w : World) → Q w → Q (store_parsed services n ls w).2
  unfolding store_parsed
  store_parsed-Q n none w q = q
  store_parsed-Q n (some ls) w q = store_lessons-Q ls 0 w q

  store_raw-Q : (n : ℕ) (raw : Text) (w : World) → Q w → Q (store_raw services n raw w).2
  unfolding store_raw
  store_raw-Q n raw w q = elim (Bool-cases (is_empty (trim_space raw))) [
    | inl e ↦ rw e q
    | inr e ↦ rw e (store_parsed-Q n (parse_lessons unmarshal raw) w q)
  ]

  reflect-Q :
      (es : List Episode) (max_chars : ℤ) (w : World) → Q w → Q (reflect services es max_chars w).2
  unfolding reflect
  reflect-Q [] max_chars w q = q
  reflect-Q (e ∷ es) max_chars w q =
      let user = digest (episode_chars max_chars) 1 (e ∷ es) in
      let (raw, w') = complete system_prompt user w in
      store_raw-Q (length (e ∷ es)) raw w' (asks system_prompt user w q)

  module _ (codec : Codec) where
    finish-Q :
        (w : Write) (s : Store) (cursor next : ℕ) (r : Result × Option Error × World)
        → Q r.2
        → Q (finish services codec w s cursor next r).world
    unfolding finish
    finish-Q w s cursor next (res, some e, world) q = q
    finish-Q w s cursor next (res, none, world) q = q

    run_window-Q :
        (w : Write) (s : Store) (cursor next : ℕ) (max_chars : ℤ) (es : List Episode)
        (world : World)
        → Q world
        → Q (run_window services codec w s cursor next max_chars es world).world
    unfolding run_window
    run_window-Q w s cursor next max_chars [] world q = q
    run_window-Q w s cursor next max_chars (e ∷ es) world q =
        finish-Q w s cursor next (reflect services (e ∷ es) max_chars world)
          (reflect-Q (e ∷ es) max_chars world q)

    pub tick-Q :
        (w w' : Write) (s : Store) (file : File) (max_episodes max_chars : ℤ) (world : World)
        → Q world
        → Q (tick services codec w w' s file max_episodes max_chars world).0.world
    unfolding tick pass
    tick-Q w w' s file max_episodes max_chars world q = run_window-Q w s _ _ max_chars _ world q
