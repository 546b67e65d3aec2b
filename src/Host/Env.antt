-- ===== src/Host/Env.antt =====
-- Numbers from the environment, with a default: the `env_u64`, `envu` and `envf` of the modules.
use mathlib.Core.Option
use k8s_sidecar_rs.Base.{Text, ℕ, unwrap_or}
use k8s_sidecar_rs.Base.Number.{parse_unsigned, u32_limit, u64_limit}
use k8s_sidecar_rs.Host.World.{Host}

module _ (H : Host) where
  unfoldable pub env_u32 : Text → ℕ → ℕ
  env_u32 name default = unwrap_or (Option.bind (H.var name) (parse_unsigned 10 u32_limit)) default

  unfoldable pub env_u64 : Text → ℕ → ℕ
  env_u64 name default = unwrap_or (Option.bind (H.var name) (parse_unsigned 10 u64_limit)) default

  unfoldable pub env_f64 : Text → H.F64 → H.F64
  env_f64 name default = unwrap_or (Option.bind (H.var name) H.f64_parse) default
