-- ===== src/Agent/Sse/Over.antt =====
-- The two ends of a stream: no bytes leave a new drainer as it is, and a drainer that has seen the end
-- stays so.
use cofiswarm_dispatch.Prelude.{
  Text, true, false, [], Option, refl, ◌≡◌, Bool-cases, inl, inr, arith,
}
use cofiswarm_dispatch.Agent.Sse.{
  Drainer, new_drainer, cut_frame, drain, feed, take_data, take_delta,
}
use cofiswarm_dispatch.Agent.Sse.Preserve.{feed-P}

module _ (delta : Text → Option Text) where
  pub feed-new_drainer : feed delta new_drainer [] ≡ new_drainer
  unfolding new_drainer feed drain cut_frame
  feed-new_drainer = refl

  abbrev IsOver : Drainer → Type 0
  IsOver d = d.done ≡ true

  take_data-IsOver : (payload : Text) (d : Drainer) → IsOver d → IsOver (take_data delta payload d)
  unfolding take_data take_delta
  take_data-IsOver payload d h = ground arith

  -- A stream that is not over was not over before.
  pub feed-done : (d : Drainer) (c : Text) → (feed delta d c).done ≡ false → d.done ≡ false
  feed-done d c h = elim (Bool-cases d.done) [
    | inr e ↦ e
    | inl e ↦ let over = feed-P delta IsOver take_data-IsOver (λ buf d h. h) d c e in absurd (cc)
  ]
