-- ===== src/Main/Handover.antt =====
-- src/main.rs, run: from the first passes to the running program.
use k8s_sidecar_rs.Base.{
  ℕ, Bool, true, false, List, [], ◌∷◌, map, Result, ok, err, ◌≡◌, ◌⊎◌, subst, if◌then◌else◌,
}
use k8s_sidecar_rs.Health.Status.{any_dead}
use k8s_sidecar_rs.Host.World.{Host, World}
use k8s_sidecar_rs.Host.Io.{pure}
use k8s_sidecar_rs.Http.Auth.{HttpCfg}
use k8s_sidecar_rs.Resources.Cache.{CachedItem, Key}
use k8s_sidecar_rs.Resources.List.{WErr}
use k8s_sidecar_rs.Main.Settings.{Settings}
use k8s_sidecar_rs.Main.Run.{
  Job, jobs, Ending, exited, watching, after_passes, start_watchers, lists_only, first_passes,
  start,
}
use k8s_sidecar_rs.Main.System.{running, ended, Reach}
use k8s_sidecar_rs.Main.Turns.{Paired}
use k8s_sidecar_rs.Main.Safety.{Reach-ended}

Paired-map : (tasks : List Job) → Paired tasks (map (λ job. true) tasks)
Paired-map [] = tt
Paired-map (job ∷ tasks) = Paired-map tasks

-- What holds of the world that is handed over to the watchers of these tasks.
abbrev Handed : (H : Host) → Ending → World H → Type 0
Handed H (exited code) w = Unit
Handed H (watching tasks) w = Paired tasks w.health.watchers

module _ (H : Host) (cfg : HttpCfg H.F64)
    (order : List (Key × CachedItem) → List (Key × CachedItem)) (fuel : ℕ) where
  after_passes-Handed :
      (list : Bool) (tasks : List Job) (r : Result Unit WErr) (v : World H)
      → let next = if list then pure (exited 0) else start_watchers H cfg order fuel tasks in
        let out = after_passes H cfg order fuel next r v in Handed H out.0 out.1
  after_passes-Handed true tasks (ok u) v = tt
  after_passes-Handed false tasks (ok u) v = Paired-map tasks
  after_passes-Handed list tasks (err e) v = tt

  start-Handed :
      (s : Settings H.Json) (w : World H)
      → Handed H (start H cfg order fuel s w).0 (start H cfg order fuel s w).1
  unfolding start
  start-Handed s w =
      let passed = first_passes H cfg order fuel s w in
      after_passes-Handed (lists_only H cfg order fuel s) (jobs s.kinds s.namespace) passed.0
        passed.1

  -- When the first passes hand over to the watchers of some tasks, and the running program ends from
  -- there: it ends with code 0, or with code 1 out of a state that it has reached and in which a
  -- watcher had died.
  pub start-ended :
      (s : Settings H.Json) (w w₁ : World H) (tasks : List Job) {c : ℕ}
      → start H cfg order fuel s w ≡ (watching tasks, w₁)
      → Reach H cfg tasks (running w₁) (ended c)
      → (c ≡ 0)
        ⊎ ((c ≡ 1)
            × ((w' : World H) × Reach H cfg tasks (running w₁) (running w')
                × (any_dead w'.health.watchers ≡ true)))
  start-ended s w w₁ tasks handed reached =
      Reach-ended H cfg tasks reached
        (subst (λ (p : Ending × World H). Handed H p.0 p.1) handed (start-Handed s w))
