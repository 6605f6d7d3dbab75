-- ===== src/Backend.antt =====
-- internal/backend/backend.go: the two inference backends, and which of them can serve an agent.
-- `ID` is the two constants that the code makes; a failed `FromName` is `none`.
pub mod Router
use cofiswarm_dispatch.Prelude.{
  Text, codes, text_eq, has_suffix, contains, to_lower, Bool, true, false, ◌||◌, Option, none, some,
  List, [], ◌∷◌, if◌then◌else◌,
}

pub data BackendId : Type 0 where
  llama_metal python_mlx : BackendId

abbrev pub id_eq : BackendId → BackendId → Bool
id_eq llama_metal llama_metal = true
id_eq python_mlx python_mlx = true
id_eq llama_metal python_mlx = false
id_eq python_mlx llama_metal = false

unfoldable pub name : BackendId → Text
name llama_metal = codes "llama_metal"
name python_mlx = codes "python_mlx"

unfoldable pub from_name : Text → Option BackendId
from_name s =
    if text_eq s (codes "llama_metal") || text_eq s (codes "llama") || text_eq s (codes "llama.cpp")
    then some llama_metal
    else if text_eq s (codes "python_mlx") || text_eq s (codes "mlx")
    then some python_mlx
    else none

pub record Agent : Type 0 where
  pub name : Text
  pub engine : Text
  pub backend : Text
  pub model : Text
  pub tags : List Text
  pub inference_backend : Text

tag_in : Text → List Text → Bool
tag_in needle [] = false
tag_in needle (t ∷ ts) = text_eq t needle || tag_in needle ts

unfoldable pub has_tag : Agent → Text → Bool
unfolding tag_in
has_tag a needle = tag_in needle a.tags

-- No character outside ASCII has its lower case in ".gguf", so `ToLower` may be taken on ASCII.
unfoldable pub looks_gguf : Text → Bool
looks_gguf model = has_suffix (to_lower model) (codes ".gguf")

unfoldable pub supports : Agent → BackendId → Bool
supports a llama_metal =
    text_eq a.engine (codes "llama") || text_eq a.backend (codes "llama") || looks_gguf a.model
supports a python_mlx =
    text_eq a.engine (codes "mlx")
    || text_eq a.backend (codes "mlx")
    || contains a.model (codes "mlx")

unfoldable pub engine_default : Agent → BackendId
engine_default a = if text_eq a.engine (codes "mlx") then python_mlx else llama_metal
