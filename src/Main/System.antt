-- ===== src/Main/System.antt =====
-- src/main.rs: the running program. The watcher tasks, the monitor loop and the handler of SIGTERM
-- take turns in any order.
use k8s_sidecar_rs.Base.{ℕ, none, some, List, ◌≡◌}
use k8s_sidecar_rs.Host.World.{Host, World}
use k8s_sidecar_rs.Http.Auth.{HttpCfg}
use k8s_sidecar_rs.Resources.Frame.{kept}
use k8s_sidecar_rs.Resources.Watch.{lowered}
use k8s_sidecar_rs.Resources.Touches.{Touches}
use k8s_sidecar_rs.Main.Run.{Job}
use k8s_sidecar_rs.Main.Monitor.{monitor_round, on_sigterm}

pub data State (H : Host) : Type 0 where
  running : World H → State H
  ended : ℕ → State H

module _ (H : Host) (cfg : HttpCfg H.F64) (tasks : List Job) where
  -- A task's step changes the files, the network and the log as it likes, and of the shared state
  -- what a sequence of its sections does. At the end of a task its flag is lowered.
  pub data Step : State H → State H → Type 0 where
    acts : {w w' : World H} → Touches (kept H cfg w) (kept H cfg w') → Step (running w) (running w')
    dies :
        {w : World H} (i : ℕ)
        → Step (running w) (running (record w { health = lowered w.health i }))
    goes_on :
        {w w' : World H} → monitor_round H tasks w ≡ (none, w') → Step (running w) (running w')
    stops :
        {w w' : World H} {c : ℕ}
        → monitor_round H tasks w ≡ (some c, w')
        → Step (running w) (ended c)
    terminated : {w w' : World H} {c : ℕ} → on_sigterm H w ≡ (c, w') → Step (running w) (ended c)

  pub data Reach (s : State H) : State H → Type 0 where
    start : Reach s s
    later : {t u : State H} → Reach s t → Step t u → Reach s u
