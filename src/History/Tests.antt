-- ===== src/History/Tests.antt =====
-- The log on concrete rows. The codec writes rows of one prompt: a byte is marked by 1, the end of a row
-- by 0.
use cofiswarm_dispatch.Prelude.{
  ℕ, zero, suc, Text, codes, text_eq, text_eq_iff, to_lower, true, false, Option, none, some, List,
  [], ◌∷◌, ◌++◌, keep, reverse, take, ◌≡◌, refl, ap, arith, inl, inr, Bool-cases,
}
use cofiswarm_dispatch.Prelude.Decimal.{pos, negsuc}
use cofiswarm_dispatch.Disk.{bytes, wrote, failed, missing, ok, write_file, Write}
use cofiswarm_dispatch.Json.{text, Fields, end, field}
use cofiswarm_dispatch.History.{Codec, Store, append, since, search, save}
use cofiswarm_dispatch.History.Watermark.{append_all, since-append_all}
use cofiswarm_dispatch.History.Search.{is_hit, IsLimit, search_lem}
use cofiswarm_dispatch.History.Restart.{RoundTrips}
use cofiswarm_dispatch.History.Race.{add, encode, write, run, idle, run_lost}
use cofiswarm_dispatch.History.Episode.{Episode}

abbrev marked : Text → Text → Text
marked [] rest = 0 ∷ rest
marked (c ∷ s) rest = 1 ∷ c ∷ marked s rest

abbrev prompt_row : Text → Fields
prompt_row s = field (codes "prompt") (text s) end

abbrev encode_prompt : Fields → Option Text → Option Text
encode_prompt (field k (text s) end) (some rest) = elim (text_eq k (codes "prompt")) [
  | true ↦ some (marked s rest)
  | false ↦ none
]
encode_prompt _ _ = none

abbrev encode_rows : List Fields → Option Text
encode_rows [] = some []
encode_rows (row ∷ rows) = encode_prompt row (encode_rows rows)

abbrev push : ℕ → List Text → List Text
push c [] = (c ∷ []) ∷ []
push c (s ∷ prompts) = (c ∷ s) ∷ prompts

abbrev prompts_of : Text → List Text
prompts_of [] = []
prompts_of (zero ∷ s) = [] ∷ prompts_of s
prompts_of (suc n ∷ []) = []
prompts_of (suc n ∷ c ∷ s) = push c (prompts_of s)

abbrev rows_of : List Text → List Fields
rows_of [] = []
rows_of (s ∷ prompts) = prompt_row s ∷ rows_of prompts

abbrev prompt_codec : Codec
prompt_codec = record { encode = encode_rows; decode = λ b. some (rows_of (prompts_of b)) }

prompts_of-marked : (s rest : Text) → prompts_of (marked s rest) ≡ s ∷ prompts_of rest
prompts_of-marked [] rest = refl
prompts_of-marked (c ∷ s) rest = rw (prompts_of-marked s rest)

decode_row :
    (row : Fields) (rows : List Fields) (o : Option Text) (b : Text)
    → encode_prompt row o ≡ some b
    → ((rest : Text) → o ≡ some rest → rows_of (prompts_of rest) ≡ rows)
    → rows_of (prompts_of b) ≡ row ∷ rows
decode_row (field k (text s) end) rows (some rest) b h later =
    elim (Bool-cases (text_eq k (codes "prompt"))) [
      | inl e ↦
          let k_prompt = (text_eq_iff k (codes "prompt")).0 e in
          let b_marked : marked s rest ≡ b = ground arith in
          rw (← b_marked, prompts_of-marked s rest, later rest refl, k_prompt)
      | inr e ↦ absurd (ground arith)
    ]
decode_row row rows none b h later = absurd (ground arith)
decode_row end rows (some rest) b h later = absurd (ground arith)
decode_row (field k v (field j u m)) rows (some rest) b h later = absurd (ground arith)
decode_row (field k v end) rows (some rest) b h later = absurd (ground arith)

decode_rows :
    (rows : List Fields) (b : Text) → encode_rows rows ≡ some b → rows_of (prompts_of b) ≡ rows
decode_rows [] b h = let e : [] ≡ b = cc in rw (← e)
decode_rows (row ∷ rows) b h = decode_row row rows (encode_rows rows) b h (decode_rows rows)

prompt_codec-RoundTrips : RoundTrips prompt_codec
prompt_codec-RoundTrips rows b h = ap some (decode_rows rows b h)

abbrev log : Store
log = record { rows = prompt_row (codes "Hi") ∷ prompt_row (codes "bye") ∷ []; file = missing }

abbrev later_row : Fields
later_row = prompt_row (codes "hi again")

abbrev calls : List (Write × Fields)
calls = (failed missing, later_row) ∷ (wrote, prompt_row []) ∷ []

since-append_all_example :
    since (pos 2) (append_all prompt_codec calls log) ≡ (later_row ∷ prompt_row [] ∷ [], 4)
unfolding since append text_eq
since-append_all_example = since-append_all prompt_codec calls (negsuc 0) log

appended : (append prompt_codec wrote later_row log).1 ≡ ok
unfolding append save write_file text_eq
appended = refl

search_lem_example :
    (n : ℕ) × IsLimit (pos 5) n
    × (search to_lower (codes "HI") (pos 5) log
        ≡ take n (keep (is_hit to_lower (to_lower (codes "HI"))) (reverse log.rows)))
search_lem_example = search_lem to_lower (codes "HI") (pos 5) log

encoded_first :
    encode_rows (log.rows ++ later_row ∷ [])
    ≡ some (marked (codes "Hi") (marked (codes "bye") (marked (codes "hi again") [])))
unfolding text_eq
encoded_first = refl

encoded_both :
    encode_rows ((log.rows ++ later_row ∷ []) ++ prompt_row [] ∷ [])
    ≡ some (marked (codes "Hi") (marked (codes "bye") (marked (codes "hi again") (marked [] []))))
unfolding text_eq
encoded_both = refl

run_lost_example :
    (run prompt_codec
      (add true later_row
        ∷ encode true
        ∷ add false (prompt_row [])
        ∷ encode false
        ∷ write false
        ∷ write true
        ∷ [])
      (idle prompt_codec log)).store
    ≡ record {
      rows = (log.rows ++ later_row ∷ []) ++ prompt_row [] ∷ [];
      file = bytes (marked (codes "Hi") (marked (codes "bye") (marked (codes "hi again") [])));
    }
run_lost_example =
    run_lost prompt_codec later_row (prompt_row []) log
      (marked (codes "Hi") (marked (codes "bye") (marked (codes "hi again") [])))
      (marked (codes "Hi") (marked (codes "bye") (marked (codes "hi again") (marked [] []))))
      encoded_first encoded_both

abbrev long_run : Episode
long_run = record {
  session_id = [];
  run_id = [];
  source = [];
  prompt = codes "How is a log searched?";
  final = codes "From the end.";
  agents = (codes "coder", codes "newest first") ∷ [];
}
