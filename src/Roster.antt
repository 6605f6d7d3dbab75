-- ===== src/Roster.antt =====
-- internal/httpapi/roster_rag.go: the targeting of retrieval by the roster of agents.
pub mod Targets
pub mod Tests
use cofiswarm_dispatch.Prelude.{
  ℕ, zero, suc, Text, codes, text_eq, is_empty, Bool, true, false, not, ◌||◌, List, [], ◌∷◌, ◌++◌,
  ltb, if◌then◌else◌, map,
}
use cofiswarm_dispatch.Prelude.Decimal.{ℤ, pos, negsuc}
use cofiswarm_dispatch.Json.{
  Value, text, array, object, Items, nil, cons, Fields, end, field, insert,
}
use cofiswarm_dispatch.Agent.{Agent}
use cofiswarm_dispatch.Prepare.{Request}

unfoldable pub contains_text : Text → List Text → Bool
contains_text s [] = false
contains_text s (t ∷ ts) = text_eq s t || contains_text s ts

-- The locals of the loop; a set is the list of its members.
pub record Targeting : Type 0 where
  pub targeted : List Text
  pub added : List Text
  pub max_top_k : ℕ
  pub kinds : List Text

larger_top_k : ℤ → ℕ → ℕ
larger_top_k (negsuc n) max_top_k = max_top_k
larger_top_k (pos n) max_top_k = if ltb max_top_k n then n else max_top_k

add_kinds : List Text → List Text → List Text
add_kinds [] kinds = kinds
add_kinds (k ∷ ks) kinds = add_kinds ks (if contains_text k kinds then kinds else kinds ++ k ∷ [])

-- One round of the loop.
unfoldable pub visit : Agent → Targeting → Targeting
unfolding contains_text larger_top_k add_kinds
visit a t =
    let known = contains_text a.name t.targeted in
    if not a.use_rag then t else record {
      targeted = if known then t.targeted else t.targeted ++ a.name ∷ [];
      added = if known then t.added else t.added ++ a.name ∷ [];
      max_top_k = larger_top_k a.rag_top_k t.max_top_k;
      kinds = add_kinds a.rag_kinds t.kinds;
    }

unfoldable pub visit_all : List Agent → Targeting → Targeting
unfolding visit
visit_all [] t = t
visit_all (a ∷ roster) t = visit_all roster (visit a t)

unfoldable pub targeting_of : Request → Targeting
targeting_of req = record { targeted = req.rag_agents; added = []; max_top_k = 0; kinds = [] }

or_top_k : ℤ → ℕ → ℤ
or_top_k (pos zero) max_top_k = pos max_top_k
or_top_k k max_top_k = k

or_kinds : List Text → List Text → List Text
or_kinds [] kinds = kinds
or_kinds (k ∷ ks) kinds = k ∷ ks

-- After the loop.
unfoldable pub apply_targeting : Request → Targeting → List Text → Request
unfolding or_top_k or_kinds
apply_targeting req t [] = req
apply_targeting req t (n ∷ names) = record req {
  use_rag = true;
  rag_agents = req.rag_agents ++ n ∷ names;
  rag_top_k = or_top_k req.rag_top_k t.max_top_k;
  rag_kinds = or_kinds req.rag_kinds t.kinds;
}

unfoldable pub merge_roster_rag : Request → List Agent → Request
unfolding apply_targeting visit_all targeting_of
merge_roster_rag req [] = req
merge_roster_rag req (a ∷ roster) =
    let t = visit_all (a ∷ roster) (targeting_of req) in apply_targeting req t t.added

text_items : List Text → Items
text_items [] = nil
text_items (s ∷ ss) = cons (text s) (text_items ss)

-- A copy of the map with the block, if there is one for some agent.
unfoldable pub with_rag_mode_config : Fields → (rag_block : Text) → List Text → Fields
unfolding text_items
with_rag_mode_config mode_config rag_block [] = mode_config
with_rag_mode_config mode_config rag_block (a ∷ agents) =
    if is_empty rag_block
    then mode_config
    else insert (codes "rag")
        (object (
          field (codes "block") (text rag_block)
            (field (codes "agents") (array (text_items (a ∷ agents))) end)))
        mode_config
