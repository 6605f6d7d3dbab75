-- ===== src/Backend/Router/Tests.antt =====
-- The router on concrete agents.
use cofiswarm_dispatch.Prelude.{
  Text, codes, text_eq, has_prefix, contains, true, false, some, List, [], ◌∷◌, last_of, ◌≡◌, refl,
  arith,
}
use cofiswarm_dispatch.Prelude.Float.{float_of_bits, float_lt}
use cofiswarm_dispatch.Backend.{llama_metal, python_mlx, Agent, supports}
use cofiswarm_dispatch.Backend.Router.{Decision, ProbeStats, Router, init, should_route}
use cofiswarm_dispatch.Backend.Router.Choose.{resolve, is_auto}
use cofiswarm_dispatch.Backend.Router.Choose.Sound.{
  IsSound, AreMeasured, resolve_total, resolve_fastest,
}
use cofiswarm_dispatch.Backend.Router.Record.Log.{full_log, record_all, decision_log_last}

-- An agent that names no backend and runs on both.
abbrev coder : Agent
coder = record {
  name = codes "coder";
  engine = codes "llama";
  backend = [];
  model = codes "qwen-mlx";
  tags = codes "coding" ∷ [];
  inference_backend = codes "auto";
}

-- 40 ms.
abbrev slow : ProbeStats
slow = record { samples = 3; ema_ms = float_of_bits 0x4044000000000000 }

-- 20 ms.
abbrev fast : ProbeStats
fast = record { samples = 2; ema_ms = float_of_bits 0x4034000000000000 }

abbrev routing : Router
routing = record {
  enabled = true;
  llama_priority = codes "high";
  ctx = some (record {
    mode_name = codes "pipeline";
    sequential_mode = true;
    kv_pressure = float_of_bits 0;
  });
  last_decisions = [];
  decision_log = [];
  probe = λ id. elim id [ llama_metal ↦ some slow | python_mlx ↦ some fast ];
}

routing_routes : should_route routing ≡ true
unfolding should_route text_eq
routing_routes = refl

coder_auto : is_auto coder ≡ true
unfolding text_eq
coder_auto = refl

coder_llama : supports coder llama_metal ≡ true
unfolding supports text_eq
coder_llama = refl

coder_mlx : supports coder python_mlx ≡ true
unfolding supports text_eq contains has_prefix
coder_mlx = refl

routing_measured : AreMeasured routing slow fast
unfolding float_lt
routing_measured = record {
  llama_at = refl;
  mlx_at = refl;
  llama_twice = omega arith;
  mlx_twice = omega arith;
  llama_finite = refl;
}

resolve_total_example : (d : Decision) × (resolve true routing coder ≡ some d) × IsSound coder d
resolve_total_example = resolve_total true routing coder

resolve_fastest_example :
    (d : Decision) × (resolve true routing coder ≡ some d)
    × (d.backend ≡ python_mlx)
    × (d.used_fallback ≡ false)
unfolding float_lt
resolve_fastest_example =
    resolve_fastest true routing coder slow fast routing_routes coder_auto coder_llama coder_mlx
      routing_measured

abbrev decision : Decision
decision = record {
  backend = llama_metal;
  backend_name = codes "llama_metal";
  reason = codes "named_override";
  used_fallback = false;
}

abbrev calls : List (Text × Decision)
calls = (codes "coder", decision) ∷ ([], decision) ∷ (codes "writer", decision) ∷ []

decision_log_last_example : (record_all calls init).decision_log ≡ last_of 256 (full_log calls)
decision_log_last_example = decision_log_last calls
