-- ===== src/Session/Store/Reread.antt =====
-- What opening the file of a session store finds.
use cofiswarm_dispatch.Prelude.{
  Text, true, false, some, ◌≡◌, refl, sym, ap, subst, ◌∙◌, ◌⊎◌, inl, inr,
}
use cofiswarm_dispatch.Prelude.Float.{Float64, FloatOps}
use cofiswarm_dispatch.Disk.{File, bytes, wrote, ok, write_file}
use cofiswarm_dispatch.Json.{Fields}
use cofiswarm_dispatch.Session.Store.Append.{doc-save}
use cofiswarm_dispatch.Session.Store.{Codec, Store, open_store, save, append_run, set_evict_hook}

-- What `encoding/json` marshalled can be unmarshalled. (Into something that may differ: an int comes back as a
-- float64, and bytes that are no UTF-8 as U+FFFD.)
abbrev pub Rereads : Codec → Type 0
Rereads codec =
    (doc : Fields) (b : Text)
    → codec.encode doc ≡ some b
    → (doc' : Fields) × (codec.decode b ≡ some doc')

-- If the document can be marshalled, a store opened on the file holds it, or what its JSON is unmarshalled to.
abbrev pub IsSaved : Codec → Store → Type 0
IsSaved codec s =
    (b : Text)
    → codec.encode s.doc ≡ some b
    → (s' : Store) × (open_store codec s.file ≡ (s', ok))
      × ((s'.doc ≡ s.doc) ⊎ (codec.decode b ≡ some s'.doc))

pub save-IsSaved :
    (codec : Codec) (s : Store) → Rereads codec → IsSaved codec (save codec wrote s).0
unfolding save write_file open_store
save-IsSaved codec s rereads b encoded' =
    let encoded : codec.encode s.doc ≡ some b =
      ap codec.encode (sym (doc-save codec wrote s)) ∙ encoded' in
    let (doc', decoded) = rereads s.doc b encoded in
    rw encoded (record { doc = doc'; file = bytes b; has_hook = false }, rw decoded, inr decoded)

pub append_run-IsSaved :
    (codec : Codec) (ops : FloatOps) (now : Float64) (session_id : Text) (run : Fields) (s : Store)
    → Rereads codec
    → IsSaved codec (append_run codec ops wrote now session_id run s).0
unfolding append_run
append_run-IsSaved codec ops now session_id run s rereads = save-IsSaved codec _ rereads

-- A store that was just opened holds what its file holds; so does one to which the hook was added.
pub open_store-IsSaved :
    (codec : Codec) (file : File) (s : Store)
    → open_store codec file ≡ (s, ok)
    → IsSaved codec s × IsSaved codec (set_evict_hook true s)
unfolding set_evict_hook
open_store-IsSaved codec file s opened =
    let same : s.file ≡ file = unfold open_store in sym (ap (λ r. r.0.file) opened) in
    let found = subst (λ f. open_store codec f ≡ (s, ok)) (sym same) opened in
    (λ b encoded. (s, found, inl refl), λ b encoded. (s, found, inl refl))
