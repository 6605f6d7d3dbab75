-- ===== src/Roster/Targets.antt =====
-- Who is targeted after the merge.
use cofiswarm_dispatch.Prelude.{
  Text, text_eq_iff, true, not, ◌||◌, List, [], ◌∷◌, ◌++◌, append_assoc, append-nil, All, ◌≡◌, refl,
  ap, sym, subst, ◌∙◌, arith, Bool-cases, inl, inr,
}
use cofiswarm_dispatch.Agent.{Agent}
use cofiswarm_dispatch.Prepare.{Request}
use cofiswarm_dispatch.Roster.{
  contains_text, Targeting, visit, visit_all, targeting_of, apply_targeting, merge_roster_rag,
}

-- An agent that opts into retrieval is among the names.
abbrev pub IsTargeted : List Text → Agent → Type 0
IsTargeted names a = (not a.use_rag || contains_text a.name names) ≡ true

contains_text-append :
    (s : Text) (xs ys : List Text)
    → contains_text s (xs ++ ys) ≡ (contains_text s xs || contains_text s ys)
unfolding contains_text
contains_text-append s [] ys = refl
contains_text-append s (x ∷ xs) ys = ground (arith, contains_text-append s xs ys)

contains_text-last : (s : Text) (xs : List Text) → contains_text s (xs ++ s ∷ []) ≡ true
unfolding contains_text
contains_text-last s xs = ground (arith, contains_text-append s xs (s ∷ []), text_eq_iff s s)

visit-IsTargeted : (a : Agent) (t : Targeting) → IsTargeted (visit a t).targeted a
unfolding visit
visit-IsTargeted a t = ground (arith, contains_text-last a.name t.targeted)

visit-keeps :
    (a b : Agent) (t : Targeting) → IsTargeted t.targeted b → IsTargeted (visit a t).targeted b
unfolding visit
visit-keeps a b t h = ground (arith, contains_text-append b.name t.targeted (a.name ∷ []))

visit_all-keeps :
    (roster : List Agent) (b : Agent) (t : Targeting)
    → IsTargeted t.targeted b
    → IsTargeted (visit_all roster t).targeted b
unfolding visit_all
visit_all-keeps [] b t h = h
visit_all-keeps (a ∷ roster) b t h = visit_all-keeps roster b (visit a t) (visit-keeps a b t h)

visit_all-IsTargeted :
    (roster : List Agent) (t : Targeting) → All (IsTargeted (visit_all roster t).targeted) roster
unfolding visit_all
visit_all-IsTargeted [] t = tt
visit_all-IsTargeted (a ∷ roster) t = (
  visit_all-keeps roster a (visit a t) (visit-IsTargeted a t),
  visit_all-IsTargeted roster (visit a t),
)

-- The set is the names that were there and those that were added.
visit-targeted :
    (a : Agent) (names : List Text) (t : Targeting)
    → t.targeted ≡ names ++ t.added
    → (visit a t).targeted ≡ names ++ (visit a t).added
unfolding visit
visit-targeted a names t h = elim (Bool-cases a.use_rag) [
  | inl e ↦ elim (Bool-cases (contains_text a.name t.targeted)) [
    | inl f ↦ rw (e, f) h
    | inr f ↦ rw (e, f) (ap (λ l. l ++ a.name ∷ []) h ∙ append_assoc names t.added (a.name ∷ []))
  ]
  | inr e ↦ rw e h
]

visit_all-targeted :
    (roster : List Agent) (names : List Text) (t : Targeting)
    → t.targeted ≡ names ++ t.added
    → (visit_all roster t).targeted ≡ names ++ (visit_all roster t).added
unfolding visit_all
visit_all-targeted [] names t h = h
visit_all-targeted (a ∷ roster) names t h =
    visit_all-targeted roster names (visit a t) (visit-targeted a names t h)

rag_agents-apply_targeting :
    (req : Request) (t : Targeting) (names : List Text)
    → (apply_targeting req t names).rag_agents ≡ req.rag_agents ++ names
unfolding apply_targeting
rag_agents-apply_targeting req t [] = sym (append-nil req.rag_agents)
rag_agents-apply_targeting req t (n ∷ names) = refl

-- After the merge every agent of the roster that opts into retrieval is targeted.
pub merge_roster_rag-IsTargeted :
    (req : Request) (roster : List Agent)
    → All (IsTargeted (merge_roster_rag req roster).rag_agents) roster
unfolding merge_roster_rag
merge_roster_rag-IsTargeted req [] = tt
merge_roster_rag-IsTargeted req (a ∷ roster) =
    let t = visit_all (a ∷ roster) (targeting_of req) in
    let start : (targeting_of req).targeted ≡ req.rag_agents ++ (targeting_of req).added =
      unfold targeting_of in sym (append-nil req.rag_agents) in
    let same : t.targeted ≡ (merge_roster_rag req (a ∷ roster)).rag_agents =
      visit_all-targeted (a ∷ roster) req.rag_agents (targeting_of req) start
      ∙ sym (rag_agents-apply_targeting req t t.added) in
    subst (λ names. All (IsTargeted names) (a ∷ roster)) same
      (visit_all-IsTargeted (a ∷ roster) (targeting_of req))

-- Agents that are all targeted already add nothing.
visit_all-added :
    (roster : List Agent) (t : Targeting)
    → All (IsTargeted t.targeted) roster
    → t.added ≡ []
    → (visit_all roster t).added ≡ []
unfolding visit_all
visit_all-added [] t h e = e
visit_all-added (a ∷ roster) t h e =
    let (same, none_added) = visit_known a t h.0 in
    visit_all-added roster (visit a t) (rw same h.1) (none_added ∙ e)
  where
    visit_known :
        (a : Agent) (t : Targeting)
        → IsTargeted t.targeted a
        → ((visit a t).targeted ≡ t.targeted) × ((visit a t).added ≡ t.added)
    visit_known a t h = unfold visit in ground arith

-- Merging the same roster a second time changes nothing.
merge_roster_rag_again :
    (req : Request) (roster : List Agent)
    → merge_roster_rag (merge_roster_rag req roster) roster ≡ merge_roster_rag req roster
unfolding merge_roster_rag
merge_roster_rag_again req [] = refl
merge_roster_rag_again req (a ∷ roster) =
    let out = merge_roster_rag req (a ∷ roster) in
    let targeted = merge_roster_rag-IsTargeted req (a ∷ roster) in
    let nothing =
      visit_all-added (a ∷ roster) (targeting_of out) (unfold targeting_of in targeted)
        (unfold targeting_of in refl) in
    again out nothing
  where
    again :
        (out : Request)
        → (visit_all (a ∷ roster) (targeting_of out)).added ≡ []
        → merge_roster_rag out (a ∷ roster) ≡ out
    again out e = rw (e, merge_roster_rag) (unfold apply_targeting in refl)
