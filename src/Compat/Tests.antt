-- ===== src/Compat/Tests.antt =====
-- A manifest that names a model twice.
use cofiswarm_dispatch.Prelude.{Text, codes, List, [], ◌∷◌}

abbrev groups : List Text
groups = codes "qwen" ∷ [] ∷ codes "llama" ∷ codes "qwen" ∷ []
