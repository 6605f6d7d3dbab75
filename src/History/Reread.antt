-- ===== src/History/Reread.antt =====
-- What opening the file of a log finds.
use cofiswarm_dispatch.Prelude.{
  Text, some, List, ◌≡◌, refl, sym, ap, subst, ◌∙◌, ◌⊎◌, inl, inr, Option-cases,
}
use cofiswarm_dispatch.Disk.{File, bytes, Write, wrote, ok, write_file}
use cofiswarm_dispatch.Json.{Fields}
use cofiswarm_dispatch.History.{Codec, Store, open_store, save, append}

-- As for the sessions: what was marshalled can be unmarshalled.
abbrev pub Rereads : Codec → Type 0
Rereads codec =
    (rows : List Fields) (b : Text)
    → codec.encode rows ≡ some b
    → (rows' : List Fields) × (codec.decode b ≡ some rows')

abbrev pub IsSaved : Codec → Store → Type 0
IsSaved codec s =
    (b : Text)
    → codec.encode s.rows ≡ some b
    → (s' : Store) × (open_store codec s.file ≡ (s', ok))
      × ((s'.rows ≡ s.rows) ⊎ (codec.decode b ≡ some s'.rows))

rows-save : (codec : Codec) (w : Write) (s : Store) → (save codec w s).0.rows ≡ s.rows
unfolding save
rows-save codec w s = elim (Option-cases (codec.encode s.rows)) [ inl e ↦ rw e | inr (b, e) ↦ rw e ]

save-IsSaved : (codec : Codec) (s : Store) → Rereads codec → IsSaved codec (save codec wrote s).0
unfolding save write_file open_store
save-IsSaved codec s rereads b encoded' =
    let encoded : codec.encode s.rows ≡ some b =
      ap codec.encode (sym (rows-save codec wrote s)) ∙ encoded' in
    let (rows', decoded) = rereads s.rows b encoded in
    rw encoded (record { rows = rows'; file = bytes b }, rw decoded, inr decoded)

pub append-IsSaved :
    (codec : Codec) (entry : Fields) (s : Store)
    → Rereads codec
    → IsSaved codec (append codec wrote entry s).0
unfolding append
append-IsSaved codec entry s rereads = save-IsSaved codec _ rereads

pub open_store-IsSaved :
    (codec : Codec) (file : File) (s : Store) → open_store codec file ≡ (s, ok) → IsSaved codec s
open_store-IsSaved codec file s opened =
    let same : s.file ≡ file = unfold open_store in sym (ap (λ r. r.0.file) opened) in
    λ b encoded. (s, subst (λ f. open_store codec f ≡ (s, ok)) (sym same) opened, inl refl)
