-- ===== src/Examples/System.antt =====
-- The theorems about the running program, its setup and its first passes at concrete inputs.
use k8s_sidecar_rs.Base.{ascii, ℕ, true, some, List, [], ◌∷◌, ◌≡◌, refl, nat_eq, list_eq}
use k8s_sidecar_rs.Kubeapi.Items.{config_map, secret}
use k8s_sidecar_rs.Health.Status
use k8s_sidecar_rs.Health.Status.{Health, any_dead, status_body}
use k8s_sidecar_rs.Host.World.{World}
use k8s_sidecar_rs.Host.Memory.{host, quiet, world_of}
use k8s_sidecar_rs.Resources.Maps.{IsWellFormed, nil-IsWellFormed}
use k8s_sidecar_rs.Resources.Touches.{done, step, readies}
use k8s_sidecar_rs.Resources.Watch.{lower, lowered}
use k8s_sidecar_rs.Main.Run.{Job}
use k8s_sidecar_rs.Main.Monitor.{monitor_round}
use k8s_sidecar_rs.Main.System.{running, Reach, start, later, acts, dies}
use k8s_sidecar_rs.Main.Safety.{Reach-IsWellFormed, Reach-dead}
use k8s_sidecar_rs.Examples.Data.{cfg}

-- Two watcher tasks, whose flags are up.
abbrev tasks : List Job
tasks = (secret, ascii "n") ∷ (config_map, ascii "n") ∷ []

abbrev watched : World host
watched = record (world_of [] quiet) {
  health = record Status.initial { ready = true; watchers = true ∷ true ∷ [] };
}

-- The world after the second task has died.
abbrev bereft : World host
bereft = record watched { health = lowered watched.health 1 }

turns : Reach host cfg tasks (running watched) (running bereft)
turns = later (later start (acts (step done readies))) (dies 1)

Reach-IsWellFormed_example : IsWellFormed bereft.maps.object
Reach-IsWellFormed_example = Reach-IsWellFormed host cfg tasks turns nil-IsWellFormed

Reach-dead_example :
    ((elapsed : ℕ) → (status_body elapsed bereft.health).code ≡ 503)
    × ((monitor_round host tasks bereft).0 ≡ some 1)
unfolding lower any_dead
Reach-dead_example = Reach-dead host cfg tasks {w = bereft} start tt refl
