-- ===== src/Main/Program.antt =====
-- src/main.rs: `run` as a whole, up to the watch loop.
use k8s_sidecar_rs.Base.{Text, ascii, ℕ, List, Result, ok, err}
use k8s_sidecar_rs.Kubeapi.Client.{Kube}
use k8s_sidecar_rs.Health.Listen.{Sockets, start_health_server}
use k8s_sidecar_rs.Host.World.{Host}
use k8s_sidecar_rs.Host.Io.{Io, pure, ◌>>=◌, ◌>>◌, info}
use k8s_sidecar_rs.Http.Auth.{HttpCfg, init}
use k8s_sidecar_rs.Logger.Emit.{LogFiles, Logger}
use k8s_sidecar_rs.Logger.Init.{LogHost, init_logger}
use k8s_sidecar_rs.Resources.Cache.{CachedItem, Key}
use k8s_sidecar_rs.Main.Flags.{Flags, parse_flags}
use k8s_sidecar_rs.Main.Settings.{Payloads, Settings}
use k8s_sidecar_rs.Main.Run.{Ending, exited, setup, start}

module _ (H : Host) (J : Payloads H) (K : Kube H) (S : Sockets H.Net) (F : LogFiles) (E : LogHost F)
    (order : List (Key × CachedItem) → List (Key × CachedItem)) (fuel : ℕ) where
  abbrev started : HttpCfg H.F64 → Result (Settings H.Json) ℕ → Io H Ending
  started cfg (ok s) = start H cfg order fuel s
  started cfg (err code) = pure (exited code)

  abbrev with_logger : Flags → Result Logger ℕ → Io H Ending
  with_logger flags (err code) = pure (exited code)
  with_logger flags (ok logger) =
      info H (ascii "Starting collector")
      >> start_health_server H S
      >> setup H J K
      >>= started (init H flags.username_file flags.password_file)

  abbrev with_flags : F.Disk → Result Flags Text → Io H Ending
  with_flags d (err other) = pure (exited 2)
  with_flags d (ok flags) = with_logger flags (init_logger F E d).0

  -- `args` are the arguments after the program's name, and `d` is the logger's disk.
  unfoldable pub run : F.Disk → List Text → Io H Ending
  run d args = with_flags d (parse_flags args)
