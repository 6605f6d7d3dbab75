-- ===== src/History/Restart.antt =====
-- What a restart finds in the file.
use cofiswarm_dispatch.Prelude.{
  Text, some, List, [], ◌∷◌, ◌++◌, ◌≡◌, refl, arith, Option-cases, inl, inr,
}
use cofiswarm_dispatch.Disk.{bytes, Write, ok}
use cofiswarm_dispatch.Json.{Fields}
use cofiswarm_dispatch.History.{Codec, Store, append, save, open_store}

-- `json.Unmarshal` of what `json.MarshalIndent` wrote gives the rows back.
abbrev pub RoundTrips : Codec → Type 0
RoundTrips codec =
    (rows : List Fields) (b : Text) → codec.encode rows ≡ some b → codec.decode b ≡ some rows

-- A save that reports success has written exactly the rows in memory.
save_ok :
    (codec : Codec) (w : Write) (s : Store)
    → (save codec w s).1 ≡ ok
    → (b : Text) × (codec.encode s.rows ≡ some b)
      × ((save codec w s).0 ≡ record s { file = bytes b })
unfolding save
save_ok codec w s h = elim (Option-cases (codec.encode s.rows)) [
  | inl e ↦ absurd (ground arith)
  | inr (b, e) ↦ (b, e, ground arith)
]

open_store-bytes :
    (codec : Codec) (b : Text) (rows : List Fields)
    → codec.decode b ≡ some rows
    → open_store codec (bytes b) ≡ (record { rows = rows; file = bytes b }, ok)
unfolding open_store
open_store-bytes codec b rows e = ground arith

-- If `Append` succeeds, a store that is opened on the file afterwards holds the rows of the store,
-- the new entry last.
pub open_store-append :
    (codec : Codec) (w : Write) (entry : Fields) (s : Store)
    → RoundTrips codec
    → (append codec w entry s).1 ≡ ok
    → (open_store codec (append codec w entry s).0.file ≡ ((append codec w entry s).0, ok))
      × ((append codec w entry s).0.rows ≡ s.rows ++ entry ∷ [])
unfolding append
open_store-append codec w entry s round_trips h =
    let s' : Store = record s { rows = s.rows ++ entry ∷ [] } in
    let (b, e, saved) = save_ok codec w s' h in
    rw saved (open_store-bytes codec b s'.rows (round_trips s'.rows b e), refl)
