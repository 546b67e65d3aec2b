-- ===== src/Main/Turns.antt =====
-- src/main.rs: what one turn of a task, or of the monitor, does to the state that all share.
use k8s_sidecar_rs.Base.{
  ℕ, zero, suc, Bool, true, false, none, some, List, [], ◌∷◌, ◌≡◌, inl, inr, refl, ◌∙◌, sym, subst,
  Bool-cases, if◌then◌else◌,
}
use k8s_sidecar_rs.Health.Status.{Health, any_dead, update_k8s_contact}
use k8s_sidecar_rs.Host.World.{Host, World}
use k8s_sidecar_rs.Resources.Cache.{Maps}
use k8s_sidecar_rs.Resources.Maps.{IsWellFormed, remember-IsWellFormed}
use k8s_sidecar_rs.Resources.Events.{note_event-object}
use k8s_sidecar_rs.Resources.List.{set_version}
use k8s_sidecar_rs.Resources.Edits.{Edit, remembers, sets_version, notes_event, Shared}
use k8s_sidecar_rs.Resources.Touches.{edits, contacts, readies, Touches, done, step}
use k8s_sidecar_rs.Main.Run.{Job}
use k8s_sidecar_rs.Main.Monitor.{monitor_round, report_dead, contact}
use k8s_sidecar_rs.Resources.Watch.{lower}

Edit-IsWellFormed : {m m' : Maps} → Edit m m' → IsWellFormed m.object → IsWellFormed m'.object
unfolding set_version
Edit-IsWellFormed {m} (remembers kind item dest_folder is_removed) wf =
    remember-IsWellFormed m kind item dest_folder is_removed wf
Edit-IsWellFormed (sets_version kind item) wf = wf
Edit-IsWellFormed {m} (notes_event kind event_type item) wf =
    subst IsWellFormed (sym (note_event-object m kind event_type item)) wf

pub Touches-IsWellFormed :
    {k k' : Shared} → Touches k k' → IsWellFormed k.0.object → IsWellFormed k'.0.object
Touches-IsWellFormed done wf = wf
Touches-IsWellFormed (step p (edits e)) wf = Edit-IsWellFormed e (Touches-IsWellFormed p wf)
Touches-IsWellFormed (step p (contacts elapsed)) wf = Touches-IsWellFormed p wf
Touches-IsWellFormed (step p readies) wf = Touches-IsWellFormed p wf

-- One flag for each task.
abbrev pub Paired : List Job → List Bool → Type 0
Paired [] [] = Unit
Paired [] (alive ∷ flags) = ⊥
Paired (job ∷ tasks) [] = ⊥
Paired (job ∷ tasks) (alive ∷ flags) = Paired tasks flags

-- The flags of the watchers are lowered by their tasks only, and readiness is never taken back.
abbrev pub Follows : List Job → (h h' : Health) → Type 0
Follows tasks h h' =
    (any_dead h.watchers ≡ true → any_dead h'.watchers ≡ true)
    × (h.ready ≡ true → h'.ready ≡ true)
    × (Paired tasks h.watchers → Paired tasks h'.watchers)

pub Touches-Follows : {k k' : Shared} (tasks : List Job) → Touches k k' → Follows tasks k.1 k'.1
Touches-Follows tasks done = (λ d. d, λ r. r, λ p. p)
Touches-Follows tasks (step p (edits e)) = Touches-Follows tasks p
Touches-Follows tasks (step p (contacts elapsed)) = Touches-Follows tasks p
Touches-Follows tasks (step p readies) =
    let before = Touches-Follows tasks p in (before.0, λ r. refl, before.2)

pub any_dead-lower :
    (flags : List Bool) (i : ℕ) → any_dead flags ≡ true → any_dead (lower flags i) ≡ true
unfolding any_dead lower
any_dead-lower [] i d = d
any_dead-lower (alive ∷ flags) zero d = refl
any_dead-lower (true ∷ flags) (suc i) d = any_dead-lower flags i d
any_dead-lower (false ∷ flags) (suc i) d = refl

pub Paired-lower :
    (tasks : List Job) (flags : List Bool) (i : ℕ)
    → Paired tasks flags
    → Paired tasks (lower flags i)
unfolding lower
Paired-lower tasks [] i p = p
Paired-lower (job ∷ tasks) (alive ∷ flags) zero p = p
Paired-lower (job ∷ tasks) (alive ∷ flags) (suc i) p = Paired-lower tasks flags i p
Paired-lower [] (alive ∷ flags) i p = absurd p

module _ (H : Host) (tasks : List Job) where
  kept-report_dead :
      (jobs : List Job) (flags : List Bool) (w : World H)
      → ((report_dead H jobs flags w).1.maps ≡ w.maps)
        × ((report_dead H jobs flags w).1.health ≡ w.health)
  unfolding report_dead
  kept-report_dead [] flags w = (refl, refl)
  kept-report_dead (job ∷ jobs) [] w = (refl, refl)
  kept-report_dead (job ∷ jobs) (true ∷ flags) w = kept-report_dead jobs flags w
  kept-report_dead (job ∷ jobs) (false ∷ flags) w = kept-report_dead jobs flags _

  -- A round of the monitor changes the time of the last contact only.
  pub kept-monitor_round :
      (w : World H)
      → ((monitor_round H tasks w).1.maps ≡ w.maps)
        × ((monitor_round H tasks w).1.health ≡ update_k8s_contact (H.elapsed_ms w.net) w.health)
  unfolding monitor_round
  kept-monitor_round w =
      let w₁ = (contact H w).1 in
      let reported = kept-report_dead tasks w₁.health.watchers w₁ in
      elim (Bool-cases (report_dead H tasks w₁.health.watchers w₁).0) [
        | inl died ↦ rw died reported
        | inr alive ↦ rw alive reported
      ]

  report_dead-any_dead :
      (jobs : List Job) (flags : List Bool) (w : World H)
      → Paired jobs flags
      → (report_dead H jobs flags w).0 ≡ any_dead flags
  unfolding report_dead any_dead
  report_dead-any_dead [] [] w p = refl
  report_dead-any_dead (job ∷ jobs) (true ∷ flags) w p = report_dead-any_dead jobs flags w p
  report_dead-any_dead (job ∷ jobs) (false ∷ flags) w p = refl
  report_dead-any_dead [] (alive ∷ flags) w p = absurd p
  report_dead-any_dead (job ∷ jobs) [] w p = absurd p

  -- With one flag for each task, a round of the monitor ends the program exactly if some watcher has
  -- died, with code 1.
  pub monitor_round-any_dead :
      (w : World H)
      → Paired tasks w.health.watchers
      → (monitor_round H tasks w).0 ≡ (if any_dead w.health.watchers then some 1 else none)
  unfolding monitor_round
  monitor_round-any_dead w p =
      let w₁ = (contact H w).1 in
      let same = report_dead-any_dead tasks w.health.watchers w₁ p in
      elim (Bool-cases (any_dead w.health.watchers)) [
        | inl dead ↦ rw (same ∙ dead, dead) refl
        | inr alive ↦ rw (same ∙ alive, alive) refl
      ]
