-- ===== src/Main/Passes.antt =====
-- src/main.rs, run: what the first passes decide.
use k8s_sidecar_rs.Base.{
  ascii, Text, ℕ, Bool, true, false, Option, none, List, [], ◌∷◌, ◌++◌, map, Result, ok, err, ◌≡◌,
  refl, ◌∙◌, sym, ap, subst, inl, inr, Bool-cases, if◌then◌else◌,
}
use k8s_sidecar_rs.Base.Dict.{In}
use k8s_sidecar_rs.Base.Str.{split}
use k8s_sidecar_rs.Kubeapi.Items.{Kind}
use k8s_sidecar_rs.Health.Status.{Health}
use k8s_sidecar_rs.Host.World.{Host, World}
use k8s_sidecar_rs.Host.Io.{info, pure, continue-keeps, continue-eq-ok}
use k8s_sidecar_rs.Http.Auth.{HttpCfg}
use k8s_sidecar_rs.Resources.Cache.{CachedItem, Key}
use k8s_sidecar_rs.Resources.Update.{Ctx}
use k8s_sidecar_rs.Resources.List.{WErr, list_resources}
use k8s_sidecar_rs.Resources.Edits.{list_resources-Edited}
use k8s_sidecar_rs.Main.Settings.{Settings}
use k8s_sidecar_rs.Main.Run.{
  init_request_url, Job, jobs, exited, watching, run_passes, first_passes, start, after_passes,
  lists_only, start_watchers,
}

In-append_left : {A : Type 0} (x : A) (xs ys : List A) → In x xs → In x (xs ++ ys)
In-append_left x [] ys i = absurd i
In-append_left x (y ∷ xs) ys (inl e) = inl e
In-append_left x (y ∷ xs) ys (inr i) = inr (In-append_left x xs ys i)

In-append_right : {A : Type 0} (x : A) (xs ys : List A) → In x ys → In x (xs ++ ys)
In-append_right x [] ys i = i
In-append_right x (y ∷ xs) ys i = inr (In-append_right x xs ys i)

In-map : {A B : Type 0} (f : A → B) (x : A) (xs : List A) → In x xs → In (f x) (map f xs)
In-map f x [] i = absurd i
In-map f x (y ∷ xs) (inl e) = inl (ap f e)
In-map f x (y ∷ xs) (inr i) = inr (In-map f x xs i)

In-jobs :
    (kinds : List Kind) (namespace : Text) (kind : Kind) (ns : Text)
    → In kind kinds
    → In ns (split b',' namespace)
    → In {A = Job} (kind, ns) (jobs kinds namespace)
unfolding jobs
In-jobs [] namespace kind ns i j = absurd i
In-jobs (k ∷ kinds) namespace kind ns (inl e) j =
    let here = In-map (λ (n : Text). (k, n)) ns (split b',' namespace) j in
    In-append_left {A = Job} (kind, ns) (map (λ n. (k, n)) (split b',' namespace))
      (jobs kinds namespace)
      (subst (λ x. In {A = Job} (x, ns) (map (λ n. (k, n)) (split b',' namespace))) (sym e) here)
In-jobs (k ∷ kinds) namespace kind ns (inr i) j =
    In-append_right {A = Job} (kind, ns) (map (λ n. (k, n)) (split b',' namespace))
      (jobs kinds namespace) (In-jobs kinds namespace kind ns i j)

module _ (H : Host) (cfg : HttpCfg H.F64)
    (order : List (Key × CachedItem) → List (Key × CachedItem)) (fuel : ℕ) where
  health-run_passes :
      (ctx : Ctx H.Json) (url : Option Text) (ignore : Bool) (todo : List Job) (w : World H)
      → (run_passes H cfg order fuel ctx url ignore todo w).1.health ≡ w.health
  unfolding run_passes
  health-run_passes ctx url ignore [] w = refl
  health-run_passes ctx url ignore ((kind, ns) ∷ todo) w =
      let pass = list_resources H cfg ctx order fuel kind ns url ignore w in
      let same = (list_resources-Edited H cfg ctx order fuel kind ns url ignore w).1 in
      continue-keeps (λ v. v.health ≡ w.health) pass.0 _ pass.1 same
        (λ u. health-run_passes ctx url ignore todo pass.1 ∙ same)

  health-first_passes :
      (s : Settings H.Json) (w : World H) → (first_passes H cfg order fuel s w).1.health ≡ w.health
  unfolding first_passes
  health-first_passes s w = elim (Bool-cases (lists_only H cfg order fuel s)) [
    | inl list ↦ rw list (health-run_passes s.ctx s.request_url _ _ w)
    | inr watch ↦ elim (Bool-cases s.request_skip_init) [
      | inl skip ↦ rw (watch, skip) (health-run_passes s.ctx none true _ _)
      | inr call ↦ rw (watch, call) (health-run_passes s.ctx s.request_url true _ _)
    ]
  ]

  abbrev pub is_ok : Result Unit WErr → Bool
  is_ok (ok u) = true
  is_ok (err e) = false

  after_passes-ending :
      (list : Bool) (tasks : List Job) (r : Result Unit WErr) (v : World H)
      → v.health.ready ≡ false
      → let next = if list then pure (exited 0) else start_watchers H cfg order fuel tasks in
        let out = after_passes H cfg order fuel next r v in
        (out.1.health.ready ≡ is_ok r)
        × (out.0 ≡ (if is_ok r then (if list then exited 0 else watching tasks) else exited 1))
  after_passes-ending true tasks (ok u) v unready = (refl, refl)
  after_passes-ending false tasks (ok u) v unready = (refl, refl)
  after_passes-ending list tasks (err e) v unready = (unready, refl)

  pub start-ending :
      (s : Settings H.Json) (w : World H)
      → w.health.ready ≡ false
      → ((start H cfg order fuel s w).1.health.ready ≡ is_ok (first_passes H cfg order fuel s w).0)
        × ((start H cfg order fuel s w).0 ≡ (
            if is_ok (first_passes H cfg order fuel s w).0
            then (if lists_only H cfg order fuel s
                then exited 0
                else watching (jobs s.kinds s.namespace))
            else exited 1))
  unfolding start
  start-ending s w unready =
      let passed = first_passes H cfg order fuel s w in
      let before = ap Health.ready (health-first_passes s w) ∙ unready in
      after_passes-ending (lists_only H cfg order fuel s) (jobs s.kinds s.namespace) passed.0
        passed.1 before

  -- Among these passes, begun in this world: the ones before this job's have succeeded, and in the
  -- world that they leave so does the job's.
  abbrev pub Synced : Ctx H.Json → Option Text → Bool → List Job → World H → Job → Type 0
  Synced ctx url ignore todo w (kind, ns) =
      (before : List Job) × (after : List Job) × (todo ≡ before ++ (kind, ns) ∷ after)
      × ((run_passes H cfg order fuel ctx url ignore before w).0 ≡ ok tt)
      × ((list_resources H cfg ctx order fuel kind ns url ignore
            (run_passes H cfg order fuel ctx url ignore before w).1).0
          ≡ ok tt)

  Synced-later :
      (ctx : Ctx H.Json) (url : Option Text) (ignore : Bool) (first : Job) (todo : List Job)
      (w : World H) (job : Job)
      → (list_resources H cfg ctx order fuel first.0 first.1 url ignore w).0 ≡ ok tt
      → Synced ctx url ignore todo
          (list_resources H cfg ctx order fuel first.0 first.1 url ignore w).1
          job
      → Synced ctx url ignore (first ∷ todo) w job
  unfolding run_passes
  Synced-later ctx url ignore first todo w job passed (before, after, e, ran, here) =
      (first ∷ before, after, ap (λ jobs. first ∷ jobs) e, rw passed ran, rw passed here)

  run_passes-Synced :
      (ctx : Ctx H.Json) (url : Option Text) (ignore : Bool) (todo : List Job) (w : World H)
      (job : Job)
      → (run_passes H cfg order fuel ctx url ignore todo w).0 ≡ ok tt
      → In job todo
      → Synced ctx url ignore todo w job
  unfolding run_passes
  run_passes-Synced ctx url ignore [] w job h i = absurd i
  run_passes-Synced ctx url ignore (first ∷ todo) w job h i =
      let (u, passed, rest) = continue-eq-ok _ _ _ h in
      elim i [
        | inl here ↦
            subst (Synced ctx url ignore (first ∷ todo) w) (sym here) ([], todo, refl, refl, passed)
        | inr later ↦
            Synced-later ctx url ignore first todo w job passed
              (run_passes-Synced ctx url ignore todo _ job rest later)
      ]

  abbrev pub pass_url : Settings H.Json → Option Text
  pass_url s =
      if lists_only H cfg order fuel s
      then s.request_url
      else if s.request_skip_init
      then none
      else s.request_url

  abbrev pub pass_ignore : Settings H.Json → Bool
  pass_ignore s = if lists_only H cfg order fuel s then s.ignore_already_processed else true

  -- The world in which the first pass begins.
  abbrev pub pass_world : Settings H.Json → World H → World H
  pass_world s w =
      if lists_only H cfg order fuel s
      then w
      else (init_request_url H cfg order fuel s
          (info H (ascii "Performing initial list-based sync before starting watch.") w).1).1

  first_passes-Synced :
      (s : Settings H.Json) (w : World H) (job : Job)
      → (first_passes H cfg order fuel s w).0 ≡ ok tt
      → In job (jobs s.kinds s.namespace)
      → Synced s.ctx (pass_url s) (pass_ignore s) (jobs s.kinds s.namespace) (pass_world s w) job
  unfolding first_passes
  first_passes-Synced s w job h i = elim (Bool-cases (lists_only H cfg order fuel s)) [
    | inl list ↦ rw list (run_passes-Synced s.ctx _ _ _ w job (rw list at h) i)
    | inr watch ↦ elim (Bool-cases s.request_skip_init) [
      | inl skip ↦ rw (watch, skip) (run_passes-Synced s.ctx _ _ _ _ job (rw (watch, skip) at h) i)
      | inr call ↦ rw (watch, call) (run_passes-Synced s.ctx _ _ _ _ job (rw (watch, call) at h) i)
    ]
  ]

  is_ok-eq : (r : Result Unit WErr) → is_ok r ≡ true → r ≡ ok tt
  is_ok-eq (ok u) h = refl
  is_ok-eq (err e) h = cc

  -- When the sidecar is not ready before its first passes and is ready after them: for each selected
  -- kind and each namespace of the comma-separated list the run has made a pass that has succeeded, in
  -- the world that the passes before it have left, and these have succeeded too. The URL to call is
  -- left out if REQ_SKIP_INIT says so, and versions that were processed already are skipped. With
  -- METHOD=LIST the URL is never left out, and versions are skipped only if that is enabled.
  pub start-Synced :
      (s : Settings H.Json) (w : World H) (kind : Kind) (ns : Text)
      → w.health.ready ≡ false
      → (start H cfg order fuel s w).1.health.ready ≡ true
      → In kind s.kinds
      → In ns (split b',' s.namespace)
      → Synced s.ctx
          (pass_url s)
          (pass_ignore s)
          (jobs s.kinds s.namespace)
          (pass_world s w)
          (kind, ns)
  start-Synced s w kind ns unready ready i j =
      let passed = is_ok-eq _ (sym (start-ending s w unready).0 ∙ ready) in
      first_passes-Synced s w (kind, ns) passed (In-jobs s.kinds s.namespace kind ns i j)
