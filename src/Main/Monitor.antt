-- ===== src/Main/Monitor.antt =====
-- src/main.rs, run: the loop that watches the watcher tasks. A watcher task lowers its `alive` flag
-- and returns: its handle is finished exactly when the flag, which the health state holds in the
-- order of the tasks, is down.
use k8s_sidecar_rs.Base.{
  Text, ascii, ℕ, Bool, true, false, Option, none, some, List, [], ◌∷◌, ◌++◌, if◌then◌else◌,
}
use k8s_sidecar_rs.Kubeapi.Items.{as_str}
use k8s_sidecar_rs.Logger.Level.{Level}
use k8s_sidecar_rs.Health.Status
use k8s_sidecar_rs.Host.World.{Host, slept_secs}
use k8s_sidecar_rs.Host.Io.{Io, pure, ◌>>◌, tell, log, info, error}
use k8s_sidecar_rs.Main.Run.{Job}

pub died_msg : Job → Text
died_msg (kind, ns) = ascii "Process for " ++ ns ++ ascii "/" ++ as_str kind ++ ascii " died"

module _ (H : Host) where
  -- Logs each finished task. The answer is whether there is one.
  unfoldable pub report_dead : List Job → List Bool → Io H Bool
  report_dead [] flags w = (false, w)
  report_dead (job ∷ tasks) [] w = (false, w)
  report_dead (job ∷ tasks) (alive ∷ flags) w =
      let w₁ = if alive then w else (error H (died_msg job) w).1 in
      let (died, w₂) = report_dead tasks flags w₁ in (if alive then died else true, w₂)

  abbrev pub contact : Io H Unit
  contact w = (tt, record w { health = Status.update_k8s_contact (H.elapsed_ms w.net) w.health })

  -- One round: the exit code, or a pause of five seconds.
  unfoldable pub monitor_round : List Job → Io H (Option ℕ)
  monitor_round tasks w =
      let w₁ = (contact w).1 in
      let (died, w₂) = report_dead tasks w₁.health.watchers w₁ in
      if died
      then (log H Level.critical (ascii "At least one process died. Stopping and exiting")
            >> pure (some 1))
          w₂
      else (tell H (slept_secs 5) >> pure none) w₂

  -- The handler of SIGTERM: the exit code.
  unfoldable pub on_sigterm : Io H ℕ
  on_sigterm = info H (ascii "Subprocess exiting gracefully") >> pure 0
