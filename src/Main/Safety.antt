-- ===== src/Main/Safety.antt =====
-- src/main.rs: what holds of the running program whatever the order in which the tasks take turns.
use k8s_sidecar_rs.Base.{
  ℕ, true, Option, none, some, List, ◌≡◌, ◌⊎◌, inl, inr, refl, ◌∙◌, sym, ap, arith, Bool-cases,
  if◌then◌else◌,
}
use k8s_sidecar_rs.Health.Status.{Health, any_dead, status_body, unavailable, update_k8s_contact}
use k8s_sidecar_rs.Host.World.{Host, World}
use k8s_sidecar_rs.Http.Auth.{HttpCfg}
use k8s_sidecar_rs.Resources.Maps.{IsWellFormed}
use k8s_sidecar_rs.Main.Run.{Job}
use k8s_sidecar_rs.Main.Monitor.{monitor_round, on_sigterm}
use k8s_sidecar_rs.Main.System.{
  running, ended, Step, acts, dies, goes_on, stops, terminated, Reach, start, later,
}
use k8s_sidecar_rs.Main.Turns.{
  Paired, Follows, Touches-IsWellFormed, Touches-Follows, any_dead-lower, Paired-lower,
  kept-monitor_round, monitor_round-any_dead,
}

module _ (H : Host) (cfg : HttpCfg H.F64) (tasks : List Job) where
  -- What a state keeps of a running one before it.
  abbrev Keeps : (w w' : World H) → Type 0
  Keeps w w' =
      (IsWellFormed w.maps.object → IsWellFormed w'.maps.object) × Follows tasks w.health w'.health

  Keeps-trans : (a b c : World H) → Keeps a b → Keeps b c → Keeps a c
  Keeps-trans a b c (wf, (dead, ready, paired)) (wf', (dead', ready', paired')) =
      (λ x. wf' (wf x), (λ x. dead' (dead x), λ x. ready' (ready x), λ x. paired' (paired x)))

  Keeps-monitor_round :
      (w w' : World H) (o : Option ℕ) → monitor_round H tasks w ≡ (o, w') → Keeps w w'
  Keeps-monitor_round w w' o e =
      let after = kept-monitor_round H tasks w in
      let maps : w'.maps ≡ w.maps = ap (λ (p : Option ℕ × World H). p.1.maps) (sym e) ∙ after.0 in
      let health : w'.health ≡ update_k8s_contact (H.elapsed_ms w.net) w.health =
        ap (λ (p : Option ℕ × World H). p.1.health) (sym e) ∙ after.1 in
      (λ wf. rw maps wf, (λ dead. rw health dead, λ ready. rw health ready, λ p. rw health p))

  Keeps-Step : {w w' : World H} → Step H cfg tasks (running w) (running w') → Keeps w w'
  Keeps-Step (acts p) = (Touches-IsWellFormed p, Touches-Follows tasks p)
  Keeps-Step {w} (dies i) = (
    λ wf. wf,
    (any_dead-lower w.health.watchers i, λ r. r, Paired-lower tasks w.health.watchers i),
  )
  Keeps-Step {w} {w'} (goes_on e) = Keeps-monitor_round w w' none e

  Keeps-Reach : {w w' : World H} → Reach H cfg tasks (running w) (running w') → Keeps w w'
  Keeps-Reach start = (λ x. x, (λ x. x, λ x. x, λ x. x))
  Keeps-Reach {w} {w'} (later {t = running v} p s) =
      Keeps-trans w v w' (Keeps-Reach p) (Keeps-Step s)
  Keeps-Reach (later {t = ended c} p s) = elim s [ ]

  -- From a state with a well-formed object map, every state that the program reaches while it runs has
  -- a well-formed object map, whatever the order in which the watcher tasks, the monitor and the
  -- lowering of `alive` flags take turns.
  pub Reach-IsWellFormed :
      {w w' : World H}
      → Reach H cfg tasks (running w) (running w')
      → IsWellFormed w.maps.object
      → IsWellFormed w'.maps.object
  Reach-IsWellFormed p = (Keeps-Reach p).0

  status_body-dead :
      (elapsed : ℕ) (h : Health) → any_dead h.watchers ≡ true → (status_body elapsed h).code ≡ 503
  unfolding status_body unavailable
  status_body-dead elapsed h dead = ground arith

  -- Once a watcher has died, with one flag for each task: in every state that the program reaches
  -- while it still runs, the health endpoint answers 503 at any time, and a round of the monitor ends
  -- the program with code 1.
  pub Reach-dead :
      {w w' : World H}
      → Reach H cfg tasks (running w) (running w')
      → Paired tasks w.health.watchers
      → any_dead w.health.watchers ≡ true
      → ((elapsed : ℕ) → (status_body elapsed w'.health).code ≡ 503)
        × ((monitor_round H tasks w').0 ≡ some 1)
  Reach-dead {w} {w'} p paired dead =
      let now = (Keeps-Reach p).1 in
      let still = now.0 dead in
      (
        λ elapsed. status_body-dead elapsed w'.health still,
        monitor_round-any_dead H tasks w' (now.2 paired) ∙ rw still refl,
      )

  -- With one flag for each task, the program ends with code 0, or with code 1 out of a state that it
  -- has reached and in which a watcher had died.
  pub Reach-ended :
      {w : World H} {c : ℕ}
      → Reach H cfg tasks (running w) (ended c)
      → Paired tasks w.health.watchers
      → (c ≡ 0)
        ⊎ ((c ≡ 1)
            × ((w' : World H) × Reach H cfg tasks (running w) (running w')
                × (any_dead w'.health.watchers ≡ true)))
  unfolding on_sigterm
  Reach-ended (later {t = running v} p (terminated e)) paired =
      inl (sym (ap (λ (q : ℕ × World H). q.0) e))
  Reach-ended {w} {c} (later {t = running v} p (stops {w'} e)) paired =
      let code : (if any_dead v.health.watchers then some 1 else none) ≡ some c =
        sym (monitor_round-any_dead H tasks v ((Keeps-Reach p).1.2 paired))
        ∙ ap (λ (q : Option ℕ × World H). q.0) e in
      elim (Bool-cases (any_dead v.health.watchers)) [
        | inl dead ↦ inr (ground (arith), (v, p, dead))
        | inr alive ↦ ground (arith)
      ]
  Reach-ended (later {t = ended d} p s) paired = elim s [ ]
