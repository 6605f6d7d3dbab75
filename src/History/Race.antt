-- ===== src/History/Race.antt =====
-- `Append` of two goroutines. The rows are encoded under the read lock, but written to the file after
-- it is released, so the three steps of one call interleave with those of the other.
use cofiswarm_dispatch.Prelude.{
  Text, Bool, true, false, Option, none, some, List, [], ◌∷◌, ◌++◌, ◌≡◌, arith,
}
use cofiswarm_dispatch.Disk.{bytes, wrote}
use cofiswarm_dispatch.Json.{Fields}
use cofiswarm_dispatch.History.{Codec, Store, append}

-- The two calls are named by `Bool`.
pub data Step : Type 0 where
  add : Bool → Fields → Step
  encode : Bool → Step
  write : Bool → Step

-- The store, and the bytes that each call has encoded and not yet written.
pub record Running : Type 0 where
  pub store : Store
  pub pending : Bool → Option Text

set_pending : Bool → Option Text → Running → Running
set_pending true b r = record r { pending = λ t. elim t [ true ↦ b | false ↦ r.pending false ] }
set_pending false b r = record r { pending = λ t. elim t [ false ↦ b | true ↦ r.pending true ] }

module _ (codec : Codec) where
  step : Step → Running → Running
  unfolding set_pending
  step (add t entry) r = record r { store = record r.store { rows = r.store.rows ++ entry ∷ [] } }
  step (encode t) r = set_pending t (codec.encode r.store.rows) r
  step (write t) r = elim (r.pending t) [
    | none ↦ r
    | some b ↦ record r { store = record r.store { file = bytes b } }
  ]

  pub run : List Step → Running → Running
  unfolding step
  run [] r = r
  run (x ∷ xs) r = run xs (step x r)

  abbrev pub idle : Store → Running
  idle s = record { store = s; pending = λ t. none }

  -- One call alone is `Append` with a write that succeeds.
  pub run-append :
      (t : Bool) (entry : Fields) (s : Store)
      → (run (add t entry ∷ encode t ∷ write t ∷ []) (idle s)).store
        ≡ (append codec wrote entry s).0
  unfolding run append
  run-append true entry s = ground arith
  run-append false entry s = ground arith

  -- Two calls that both run to their end with every write succeeding can leave the file without the
  -- second entry: the first call encodes before the second adds its entry and writes after the second
  -- has written. The rows in memory hold both.
  pub run_lost :
      (first second : Fields) (s : Store) (b b' : Text)
      → codec.encode (s.rows ++ first ∷ []) ≡ some b
      → codec.encode ((s.rows ++ first ∷ []) ++ second ∷ []) ≡ some b'
      → (run
          (add true first
            ∷ encode true
            ∷ add false second
            ∷ encode false
            ∷ write false
            ∷ write true
            ∷ [])
          (idle s)).store
        ≡ record { rows = (s.rows ++ first ∷ []) ++ second ∷ []; file = bytes b }
  unfolding run
  run_lost first second s b b' e e' = ground arith
