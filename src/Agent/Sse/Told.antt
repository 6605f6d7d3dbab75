-- ===== src/Agent/Sse/Told.antt =====
-- The accumulated text against the calls of `onChunk`.
use mathlib.Core.List.{flatten}
use cofiswarm_dispatch.Prelude.{
  Text, codes, text_eq, is_empty, Option, none, some, List, [], ◌∷◌, ◌++◌, append_assoc, append-nil,
  ◌≡◌, refl, sym, Bool-cases, inl, inr, ap,
}
use cofiswarm_dispatch.Prelude.Utf8.{to_valid_utf8}
use cofiswarm_dispatch.Agent.Sse.{Drainer, new_drainer, feed, flush, take_delta, take_data}
use cofiswarm_dispatch.Agent.Sse.Chunks.{feed_all}
use cofiswarm_dispatch.Agent.Sse.Preserve.{feed-P, flush-P}

-- The text is what `onChunk` was told, in order.
abbrev pub IsTold : Drainer → Type 0
IsTold d = d.acc ≡ flatten d.chunks

flatten_snoc : (cs : List Text) (c : Text) → flatten (cs ++ c ∷ []) ≡ flatten cs ++ c
unfolding flatten
flatten_snoc [] c = append-nil c
flatten_snoc (b ∷ cs) c = rw (flatten_snoc cs c) (sym (append_assoc b (flatten cs) c))

pub new_drainer-IsTold : IsTold new_drainer
unfolding new_drainer flatten
new_drainer-IsTold = refl

module _ (delta : Text → Option Text) where
  take_delta-IsTold : (o : Option Text) (d : Drainer) → IsTold d → IsTold (take_delta delta o d)
  unfolding take_delta
  take_delta-IsTold none d h = h
  take_delta-IsTold (some raw) d h = elim (Bool-cases (is_empty (to_valid_utf8 raw))) [
    | inl e ↦ rw e h
    | inr e ↦ rw (e, flatten_snoc d.chunks (to_valid_utf8 raw)) (ap (λ a. a ++ to_valid_utf8 raw) h)
  ]

  take_data-IsTold : (payload : Text) (d : Drainer) → IsTold d → IsTold (take_data delta payload d)
  unfolding take_data
  take_data-IsTold payload d h = elim (Bool-cases (text_eq payload (codes "[DONE]"))) [
    | inl e ↦ rw e h
    | inr e ↦ rw e (take_delta-IsTold (delta payload) (record d { last_data = payload }) h)
  ]

  pub feed-IsTold : (d : Drainer) (c : Text) → IsTold d → IsTold (feed delta d c)
  feed-IsTold d c h = feed-P delta IsTold take_data-IsTold (λ buf d h. h) d c h

  pub flush-IsTold : (d : Drainer) → IsTold d → IsTold (flush delta d)
  flush-IsTold d h = flush-P delta IsTold take_data-IsTold (λ buf d h. h) d h

  feed_all-IsTold : (cs : List Text) (d : Drainer) → IsTold d → IsTold (feed_all delta cs d)
  feed_all-IsTold [] d h = h
  feed_all-IsTold (c ∷ cs) d h = feed_all-IsTold cs (feed delta d c) (feed-IsTold d c h)

  -- After any chunks and the final flush, the accumulated text is the concatenation of everything that
  -- `onChunk` was called with.
  pub flush-told :
      (cs : List Text)
      → (flush delta (feed_all delta cs new_drainer)).acc
        ≡ flatten (flush delta (feed_all delta cs new_drainer)).chunks
  flush-told cs =
      flush-IsTold (feed_all delta cs new_drainer)
        (feed_all-IsTold cs new_drainer new_drainer-IsTold)
