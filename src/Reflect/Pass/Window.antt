-- ===== src/Reflect/Pass/Window.antt =====
-- Which episodes a pass takes, and where it leaves the cursor.
use cofiswarm_dispatch.Prelude.{
  ℕ, ◌≤◌, text_eq, false, Option, none, some, List, [], ◌∷◌, ◌++◌, append-nil, keep, length, ◌==◌,
  ◌≡◌, ◌⊎◌, inl, inr, refl, sym, ap, ◌∙◌, arith, Bool-cases, ==_iff,
}
use cofiswarm_dispatch.Prelude.Decimal.{ℤ, pos, negsuc, max_int}
use cofiswarm_dispatch.Disk.{File, Write, wrote}
use cofiswarm_dispatch.History.{Codec, Store, append, since}
use cofiswarm_dispatch.History.Episode.{Episode, as_episode, episodes}
use cofiswarm_dispatch.History.Watermark.{rows-append, since-tail}
use cofiswarm_dispatch.Reflect.{Result, Error, Services, reflect}
use cofiswarm_dispatch.Reflect.Stores.{all_unusable}
use cofiswarm_dispatch.Reflect.Pass.{
  pass, summary_entry, is_new, cap_episodes, none_done, finish, run_window, tick, load_cursor,
}
use cofiswarm_dispatch.Reflect.Pass.Cursor.{load_cursor-save_cursor}

-- The bookkeeping entry of a pass is not an episode for the next one.
summary_entry-not-new : (r : Result) → is_new (as_episode (summary_entry r)) ≡ false
unfolding is_new as_episode summary_entry
summary_entry-not-new r = unfold text_eq in refl

module _ (services : Services) (codec : Codec) where
  open services use {World}

  finish-next :
      (w : Write) (s : Store) (cursor next : ℕ) (r : Result × Option Error × World)
      → (finish services codec w s cursor next r).next ≡ next
  unfolding finish
  finish-next w s cursor next (res, some e, world) = rw (all_unusable e)
  finish-next w s cursor next (res, none, world) = refl

  pub run_window-next :
      (w : Write) (s : Store) (cursor next : ℕ) (max_chars : ℤ) (es : List Episode) (world : World)
      → (run_window services codec w s cursor next max_chars es world).next ≡ next
  unfolding run_window
  run_window-next w s cursor next max_chars [] world = refl
  run_window-next w s cursor next max_chars (e ∷ es) world =
      finish-next w s cursor next (reflect services (e ∷ es) max_chars world)

  -- Every pass moves the cursor to the length of the log that it found, also where the reflection failed:
  -- no failure of `Reflect` is one that the pass retries.
  pub pass-next :
      (w : Write) (s : Store) (cursor : ℕ) (max_episodes max_chars : ℤ) (world : World)
      → (pass services codec w s cursor max_episodes max_chars world).next ≡ length s.rows
  unfolding pass since
  pass-next w s cursor max_episodes max_chars world =
      run_window-next w s cursor (length s.rows) max_chars _ world

  run_window-store :
      (w : Write) (s : Store) (cursor next : ℕ) (max_chars : ℤ) (es : List Episode) (world : World)
      → let p = run_window services codec w s cursor next max_chars es world in
        (p.store ≡ s) ⊎ (p.store ≡ (append codec w (summary_entry p.result) s).0)
  unfolding run_window
  run_window-store w s cursor next max_chars [] world = inl refl
  run_window-store w s cursor next max_chars (e ∷ es) world =
      go (reflect services (e ∷ es) max_chars world)
    where
      go :
          (r : Result × Option Error × World)
          → let p = finish services codec w s cursor next r in
            (p.store ≡ s) ⊎ (p.store ≡ (append codec w (summary_entry p.result) s).0)
      go (res, some err, world') = inl refl
      go (res, none, world') = inr refl

  pub run_window-rows :
      (w : Write) (s : Store) (cursor next : ℕ) (max_chars : ℤ) (es : List Episode) (world : World)
      → let p = run_window services codec w s cursor next max_chars es world in
        (p.store ≡ s) ⊎ (p.store.rows ≡ s.rows ++ summary_entry p.result ∷ [])
  run_window-rows w s cursor next max_chars es world =
      let p = run_window services codec w s cursor next max_chars es world in
      elim (run_window-store w s cursor next max_chars es world) [
        | inl e ↦ inl e
        | inr e ↦
            inr (ap (λ (t : Store). t.rows) e ∙ rows-append codec w (summary_entry p.result) s)
      ]

  -- A tick leaves the log alone or appends its bookkeeping entry.
  pub tick-store :
      (w w' : Write) (s : Store) (file : File) (max_episodes max_chars : ℤ) (world : World)
      → let p = (tick services codec w w' s file max_episodes max_chars world).0 in
        (p.store ≡ s) ⊎ (p.store ≡ (append codec w (summary_entry p.result) s).0)
  unfolding tick pass
  tick-store w w' s file max_episodes max_chars world =
      let cursor = load_cursor file in
      run_window-store w s cursor (since (pos cursor) s).1 max_chars _ world

  cap_episodes-nil : (max_episodes : ℤ) → cap_episodes max_episodes [] ≡ []
  unfolding cap_episodes
  cap_episodes-nil (negsuc n) = refl
  cap_episodes-nil (pos n) = ground arith

  -- The window behind the log that a pass found holds nothing new after it.
  nothing_new :
      (s s' : Store) (r : Result)
      → (s' ≡ s) ⊎ (s'.rows ≡ s.rows ++ summary_entry r ∷ [])
      → keep is_new (episodes (since (pos (length s.rows)) s').0) ≡ []
  unfolding episodes
  nothing_new s s' r (inl e) = rw (since-tail s.rows [] s' (rw (append-nil, e)))
  nothing_new s s' r (inr e) =
      rw (since-tail s.rows (summary_entry r ∷ []) s' e, summary_entry-not-new r)

  quiet_pass :
      (w : Write) (s : Store) (cursor : ℕ) (max_episodes max_chars : ℤ) (world : World)
      → keep is_new (episodes (since (pos cursor) s).0) ≡ []
      → pass services codec w s cursor max_episodes max_chars world ≡ record {
        result = none_done;
        next = length s.rows;
        error = none;
        store = s;
        world = world;
      }
  unfolding pass
  quiet_pass w s cursor max_episodes max_chars world e =
      rw (e, cap_episodes-nil max_episodes) (unfold since in refl)

  -- A pass right after another one, from the cursor that the first returned, finds nothing new: it
  -- calls neither the model nor the sink, and leaves the history alone.
  pub pass_again :
      (w w' : Write) (s : Store) (cursor : ℕ) (max_episodes max_chars : ℤ) (world : World)
      → let p = pass services codec w s cursor max_episodes max_chars world in
        pass services codec w' p.store p.next max_episodes max_chars p.world ≡ record {
          result = none_done;
          next = length p.store.rows;
          error = none;
          store = p.store;
          world = p.world;
        }
  pass_again w w' s cursor max_episodes max_chars world =
      let p = pass services codec w s cursor max_episodes max_chars world in
      quiet_pass w' p.store p.next max_episodes max_chars p.world (
        rw (pass-next w s cursor max_episodes max_chars world) (
          nothing_new s p.store p.result
            (unfold pass in run_window-rows w s cursor (since (pos cursor) s).1 max_chars _ world)))

  -- After a tick whose cursor write succeeds, the cursor file reads as the length of the log that the
  -- tick found, whatever the file held before and whether or not the reflection failed.
  pub tick-cursor :
      (w : Write) (s : Store) (file : File) (max_episodes max_chars : ℤ) (world : World)
      → length s.rows ≤ max_int
      → load_cursor (tick services codec w wrote s file max_episodes max_chars world).1
        ≡ length s.rows
  unfolding tick
  tick-cursor w s file max_episodes max_chars world fits =
      let p = pass services codec w s (load_cursor file) max_episodes max_chars world in
      let moved = pass-next w s (load_cursor file) max_episodes max_chars world in
      elim (Bool-cases (p.next == load_cursor file)) [
        | inl e ↦ rw e (sym ((==_iff p.next (load_cursor file)).0 e) ∙ moved)
        | inr e ↦ rw (e, moved) (load_cursor-save_cursor (length s.rows) file fits)
      ]
