-- ===== src/Main/Tasks.antt =====
-- src/resources.rs, watch_task, as a task of the running program of src/main.rs.
use k8s_sidecar_rs.Base.{Text, ℕ, Bool, Option, List, ◌≡◌, subst, sym}
use k8s_sidecar_rs.Kubeapi.Items.{Kind}
use k8s_sidecar_rs.Kubeapi.Watch.{Streams}
use k8s_sidecar_rs.Host.World.{Host, World}
use k8s_sidecar_rs.Http.Auth.{HttpCfg}
use k8s_sidecar_rs.Resources.Cache.{CachedItem, Key}
use k8s_sidecar_rs.Resources.Update.{Ctx}
use k8s_sidecar_rs.Resources.Frame.{kept}
use k8s_sidecar_rs.Resources.Edits.{Shared}
use k8s_sidecar_rs.Resources.Watch.{Round, again, watch_task}
use k8s_sidecar_rs.Resources.Touches.{Touches, at_end, watch_task-Touches}
use k8s_sidecar_rs.Main.Run.{Job}
use k8s_sidecar_rs.Main.System.{running, Step, acts, Reach, start, later}

module _ (H : Host) (cfg : HttpCfg H.F64) (tasks : List Job) where
  Reach-at_end :
      (i : ℕ) (r : Round) (w w' : World H) (k : Shared)
      → Touches (kept H cfg w) k
      → kept H cfg w' ≡ at_end i r k
      → Reach H cfg tasks (running w) (running w')
  Reach-at_end i again w w' k run same =
      later start (acts (subst (Touches (kept H cfg w)) (sym same) run))
  Reach-at_end i Round.dies w w' k run same =
      subst
        (λ (s : Shared).
          Reach H cfg tasks (running w) (running (record w' { maps = s.0; health = s.1 })))
        (sym same)
        (later (later start (acts {w' = record w' { maps = k.0; health = k.1 }} run)) (Step.dies i))

  -- A run of a watcher task on its own, in any number of rounds and however it ends, is made of steps
  -- of the running program: what it leaves is reached from where it began.
  pub watch_task-Reach :
      (ctx : Ctx H.Json) (S : Streams H) (order : List (Key × CachedItem) → List (Key × CachedItem))
      (page_fuel : ℕ) (kind : Kind) (namespace : Text) (request_url : Option Text) (ignore : Bool)
      (i fuel : ℕ) (w : World H)
      → Reach H cfg tasks (running w) (
          running
            (watch_task H cfg ctx S order page_fuel kind namespace request_url ignore i fuel w).1)
  watch_task-Reach ctx S order page_fuel kind namespace request_url ignore i fuel w =
      let (k, run, same) =
        watch_task-Touches H cfg ctx S order page_fuel kind namespace request_url ignore i fuel w in
      Reach-at_end i _ w _ k run same
