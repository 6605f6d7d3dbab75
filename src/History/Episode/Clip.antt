-- ===== src/History/Episode/Clip.antt =====
-- The length of a digest.
use cofiswarm_dispatch.Prelude.{
  ℕ, ◌-◌, ◌≤◌, ◌<◌, Text, length, length-append, length-take, take, arith,
}
use cofiswarm_dispatch.Prelude.Utf8.{to_valid_utf8, length-to_valid_utf8-le}
use cofiswarm_dispatch.History.Episode.{Episode, clip, ellipsis, salient}

-- What is cut off fits the budget with the ellipsis.
length-clip-le : (s : Text) (max_chars : ℕ) → 0 < max_chars → length (clip s max_chars) ≤ max_chars
unfolding clip
length-clip-le s max_chars pos = ground (
  arith,
  length-to_valid_utf8-le (take max_chars s),
  length-to_valid_utf8-le (take (max_chars - 3) s),
  length-take max_chars s,
  length-take (max_chars - 3) s,
  length-append (to_valid_utf8 (take (max_chars - 3) s)) ellipsis,
)

-- A digest is never longer than a positive budget, whatever the episode holds.
pub length-salient-le :
    (e : Episode) (max_chars : ℕ) → 0 < max_chars → length (salient e max_chars) ≤ max_chars
unfolding salient
length-salient-le e max_chars pos = length-clip-le _ max_chars pos
