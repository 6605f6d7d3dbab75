-- ===== src/Agent/Stream/Drain.antt =====
-- `drainStream` as a whole: what it returns, and that the cuts of the network do not matter.
use mathlib.Core.List.{flatten}
use cofiswarm_dispatch.Prelude.{
  Text, is_empty, false, Option, List, [], ◌∷◌, ◌++◌, append-nil, append_assoc, subst, ◌≡◌, ap, sym,
  ◌∙◌, Bool-cases, inl, inr, arith,
}
use cofiswarm_dispatch.Agent.{strip_template_leakage}
use cofiswarm_dispatch.Agent.Sse.{Drainer, new_drainer, feed, flush}
use cofiswarm_dispatch.Agent.Sse.Chunks.{feed-feed}
use cofiswarm_dispatch.Agent.Sse.Over.{feed-done, feed-new_drainer}
use cofiswarm_dispatch.Agent.Sse.Told.{IsTold, feed-IsTold, flush-IsTold, new_drainer-IsTold}
use cofiswarm_dispatch.Agent.Stream.{Reads, feed_read, read_loop, drain_stream}

module _ (delta : Text → Option Text) where
  feed_read-IsTold : (d : Drainer) (bytes : Text) → IsTold d → IsTold (feed_read delta d bytes)
  unfolding feed_read
  feed_read-IsTold d bytes h = elim (Bool-cases (is_empty bytes)) [
    | inl e ↦ rw e h
    | inr e ↦ rw e (feed-IsTold delta d bytes h)
  ]

  read_loop-IsTold :
      (more : List Text) (at_end : Text) (d : Drainer)
      → IsTold d
      → IsTold (read_loop delta more at_end d)
  unfolding read_loop
  read_loop-IsTold [] at_end d h = feed_read-IsTold d at_end h
  read_loop-IsTold (bytes ∷ more) at_end d h =
      let d' = feed_read delta d bytes in
      let h' = feed_read-IsTold d bytes h in
      elim (Bool-cases d'.done) [
        | inl e ↦ rw e h'
        | inr e ↦ rw e (read_loop-IsTold more at_end d' h')
      ]

  -- Whatever the reads of a stream bring, and wherever it breaks off, the text that is returned is what
  -- `onChunk` was told, in order, cut at the first template token.
  pub drain_stream-told :
      (reads : Reads)
      → (drain_stream delta reads).returned
        ≡ strip_template_leakage (flatten (drain_stream delta reads).told)
  unfolding drain_stream
  drain_stream-told reads = ap strip_template_leakage (
      flush-IsTold delta (read_loop delta reads.before_end reads.at_end new_drainer)
        (read_loop-IsTold reads.before_end reads.at_end new_drainer new_drainer-IsTold))

  feed-feed_read :
      (s bytes : Text)
      → feed_read delta (feed delta new_drainer s) bytes ≡ feed delta new_drainer (s ++ bytes)
  unfolding feed_read
  feed-feed_read s [] = ap (feed delta new_drainer) (sym (append-nil s))
  feed-feed_read s (b ∷ bytes) = feed-feed delta new_drainer s (b ∷ bytes)

  -- A round that does not end the stream goes on.
  read_loop_on :
      (d : Drainer) (bytes : Text) (more : List Text) (at_end : Text)
      → (feed_read delta d bytes).done ≡ false
      → read_loop delta (bytes ∷ more) at_end d
        ≡ read_loop delta more at_end (feed_read delta d bytes)
  unfolding read_loop
  read_loop_on d bytes more at_end h = ground arith

  read_loop-flatten :
      (more : List Text) (at_end s : Text)
      → (feed delta new_drainer (s ++ flatten more)).done ≡ false
      → read_loop delta more at_end (feed delta new_drainer s)
        ≡ feed delta new_drainer (s ++ (flatten more ++ at_end))
  unfolding flatten
  read_loop-flatten [] at_end s h = unfold read_loop in feed-feed_read s at_end
  read_loop-flatten (bytes ∷ more) at_end s h =
      let s' = s ++ bytes in
      let all : s ++ (bytes ++ flatten more) ≡ s' ++ flatten more =
        sym (append_assoc s bytes (flatten more)) in
      let h' : (feed delta new_drainer (s' ++ flatten more)).done ≡ false =
        subst (λ t. (feed delta new_drainer t).done ≡ false) all h in
      let on : (feed delta new_drainer s').done ≡ false =
        feed-done delta (feed delta new_drainer s') (flatten more)
          (rw (feed-feed delta new_drainer s' (flatten more)) h') in
      let fed = feed-feed_read s bytes in
      read_loop_on (feed delta new_drainer s) bytes more at_end (rw fed on)
      ∙ ap (read_loop delta more at_end) fed
      ∙ (read_loop-flatten more at_end s' h'
          ∙ ap (feed delta new_drainer) (
              append_assoc s bytes (flatten more ++ at_end)
              ∙ ap (λ t. s ++ t) (sym (append_assoc bytes (flatten more) at_end))))

  -- However the network cuts a stream into reads, as long as it is not over before the last read,
  -- `drainStream` returns the same text and calls `onChunk` with the same deltas as when the
  -- whole stream arrives in one read.
  pub drain_stream-flatten :
      (more : List Text) (at_end : Text)
      → (feed delta new_drainer (flatten more)).done ≡ false
      → drain_stream delta (record { before_end = more; at_end = at_end })
        ≡ drain_stream delta (record { before_end = []; at_end = flatten more ++ at_end })
  unfolding drain_stream
  drain_stream-flatten more at_end h =
      let whole = flatten more ++ at_end in
      let start = sym (feed-new_drainer delta) in
      ap
        (λ d.
          let d' = flush delta d in
          record { returned = strip_template_leakage d'.acc; told = d'.chunks })
        (ap (read_loop delta more at_end) start
          ∙ read_loop-flatten more at_end [] h
          ∙ sym (ap (λ d. feed_read delta d whole) start ∙ feed-feed_read [] whole))
