-- ===== src/Httpapi/Run/Log.antt =====
-- The history over a run of the server.
use cofiswarm_dispatch.Prelude.{
  ℕ, Option, none, some, List, [], ◌∷◌, ◌++◌, append_assoc, append-nil, map, All, ◌≡◌, refl, sym,
  ap, ◌∙◌,
}
use cofiswarm_dispatch.Disk.{Write}
use cofiswarm_dispatch.Json.{Fields}
use cofiswarm_dispatch.Backend.Router.{Env}
use cofiswarm_dispatch.History
use cofiswarm_dispatch.History.Watermark.{rows-append}
use cofiswarm_dispatch.Session.Store.{Handed}
use cofiswarm_dispatch.Httpapi.{Server, evict_entry, evict_hook}
use cofiswarm_dispatch.Httpapi.Evict.{rows-append_evicted}
use cofiswarm_dispatch.Httpapi.Outside.{Outside}
use cofiswarm_dispatch.Httpapi.Run.{Event, request, ticked, run}
use cofiswarm_dispatch.Httpapi.Run.Good.{Allows, run_Good}

-- The rows, with some entries after them.
abbrev pub IsGrown : List Fields → Option History.Store → Type 0
IsGrown rows history =
    (h : History.Store) × (more : List Fields) × (history ≡ some h) × (h.rows ≡ rows ++ more)

grown :
    (rows more : List Fields) (h' : History.Store) (h : History.Store) (added : List Fields)
    → h.rows ≡ rows ++ more
    → h'.rows ≡ h.rows ++ added
    → IsGrown rows (some h')
grown rows more h' h added before after =
    (h', more ++ added, refl, after ∙ ap (λ r. r ++ added) before ∙ append_assoc rows more added)

hook-IsGrown :
    (codec : History.Codec) (disk : ℕ → Write) (handed : Handed) (rows : List Fields)
    (history : Option History.Store)
    → IsGrown rows history
    → IsGrown rows (evict_hook codec disk handed history)
unfolding evict_hook
hook-IsGrown codec disk none rows history g = g
hook-IsGrown codec disk (some (session_id, evicted)) rows history (h, more, there, so) =
    rw (there, evict_hook)
      (grown rows more _ h (map (evict_entry session_id) evicted) so
        (rows-append_evicted codec disk 0 session_id evicted h))

entry-IsGrown :
    (codec : History.Codec) (w : Write) (entry : Fields) (rows : List Fields) (h : History.Store)
    → IsGrown rows (some h)
    → IsGrown rows (some (History.append codec w entry h).0)
entry-IsGrown codec w entry rows h (h', more, there, so) =
    let same : h ≡ h' = cc in
    grown rows more _ h (entry ∷ []) (ap (λ (t : History.Store). t.rows) same ∙ so)
      (rows-append codec w entry h)

every_write : {o : Outside} (es : List (Event o)) → All (Allows (λ w. Unit {0})) es
every_write [] = tt
every_write (request moment req ws ∷ es) = ((tt, λ n. tt), every_write es)
every_write (ticked started w w' cursor agents services ∷ es) = (tt, every_write es)

-- Over any requests and ticks of the reflection, one after another, on any networks and disks, a server with a
-- history keeps one, and its log only grows: what the history held before stands at its front.
pub run-history :
    (o : Outside) (env : Env) (es : List (Event o)) (s : Server) (h : History.Store)
    → s.history ≡ some h
    → (h' : History.Store) × (more : List Fields) × ((run o env es s).history ≡ some h')
      × (h'.rows ≡ h.rows ++ more)
run-history o env es s h there =
    run_Good o env (λ w. Unit) (λ sessions history. IsGrown h.rows history)
      (λ moment session_id fields sessions history a b g.
        hook-IsGrown o.deps.history_codec moment.history_write _ h.rows history g)
      (λ w entry sessions h' a g. entry-IsGrown o.deps.history_codec w entry h.rows h' g) es s
      (every_write es) (h, [], there, sym (append-nil h.rows))
