-- ===== src/Logger/Level.antt =====
-- src/logger.rs: the levels.
use k8s_sidecar_rs.Base.{Text, ascii, ℕ}

pub data Level : Type 0 where
  debug info warning error critical : Level

-- The discriminant, by which levels are ordered.
unfoldable pub rank : Level → ℕ
rank debug = 10
rank info = 20
rank warning = 30
rank error = 40
rank critical = 50

unfoldable pub name : Level → Text
name debug = ascii "DEBUG"
name info = ascii "INFO"
name warning = ascii "WARNING"
name error = ascii "ERROR"
name critical = ascii "CRITICAL"
