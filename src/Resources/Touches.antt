-- ===== src/Resources/Touches.antt =====
-- src/resources.rs, watch_resource_iterator and watch_task: all that a watcher task does to the state
-- that the tasks share, as a sequence of steps.
use k8s_sidecar_rs.Base.{
  Text, ℕ, zero, suc, Bool, true, false, Option, List, [], ◌∷◌, Result, ok, err, ◌≡◌, refl, ◌∙◌, ap,
  sym, subst, arith, inl, inr, Bool-cases, ◌%◌,
}
use k8s_sidecar_rs.Base.Number.{u32_limit}
use k8s_sidecar_rs.Kubeapi.Items.{Kind, config_map, secret, Item}
use k8s_sidecar_rs.Kubeapi.Watch.{Streams, Delivery, watch_items}
use k8s_sidecar_rs.Health.Status.{Health, mark_ready, update_k8s_contact}
use k8s_sidecar_rs.Host.World.{Host, World}
use k8s_sidecar_rs.Host.Io.{debug, continue-keeps}
use k8s_sidecar_rs.Http.Auth.{HttpCfg}
use k8s_sidecar_rs.Resources.Cache.{CachedItem, Key, Maps}
use k8s_sidecar_rs.Resources.Update.{Ctx, selector}
use k8s_sidecar_rs.Resources.Frame.{kept}
use k8s_sidecar_rs.Resources.Events.{kept-work_event}
use k8s_sidecar_rs.Resources.Edits.{
  Edit, remembers, notes_event, Edits, none_left, and_then_one, Shared, Edited,
  list_resources-Edited,
}
use k8s_sidecar_rs.Resources.List.{WErr, kube, list_resources}
use k8s_sidecar_rs.Resources.Watch.{
  is_deleted, skip_event, work_event, on_event, on_contact, watch_events, watch_resource_iterator,
  sleep_mode, watch_round, on_result, watching_msg, Round, watch_task, throttle, sleep_secs, again,
  dies, lower, lowered,
}

-- One step: a section under the lock of the maps, or a change of the health state.
pub data Touch (k : Shared) : Shared → Type 0 where
  edits : {m : Maps} → Edit k.0 m → Touch k (m, k.1)
  contacts : (elapsed : ℕ) → Touch k (k.0, update_k8s_contact elapsed k.1)
  readies : Touch k (k.0, mark_ready k.1)

pub data Touches (k : Shared) : Shared → Type 0 where
  done : Touches k k
  step : {k₁ k₂ : Shared} → Touches k k₁ → Touch k₁ k₂ → Touches k k₂

Touches-trans : {a b c : Shared} → Touches a b → Touches b c → Touches a c
Touches-trans p done = p
Touches-trans p (step q t) = step (Touches-trans p q) t

Touches-same : {k k' : Shared} → k' ≡ k → Touches k k'
Touches-same {k} e = subst (Touches k) (sym e) done

Touches-Edits : {m m' : Maps} {h : Health} → Edits m m' → Touches (m, h) (m', h)
Touches-Edits none_left = done
Touches-Edits (and_then_one q e) = step (Touches-Edits q) (edits e)

Touches-Edited : {k k' : Shared} → Edited k k' → Touches k k'
Touches-Edited {k} {k'} (p, e) = subst (λ h. Touches k (k'.0, h)) (sym e) (Touches-Edits p)

Touches-one : {k k' : Shared} {m : Maps} → Edit k.0 m → k' ≡ (m, k.1) → Touches k k'
Touches-one {k} e same = subst (Touches k) (sym same) (step done (edits e))

Touches-watchers : {k k' : Shared} → Touches k k' → k'.1.watchers ≡ k.1.watchers
Touches-watchers done = refl
Touches-watchers (step p (edits e)) = Touches-watchers p
Touches-watchers (step p (contacts elapsed)) = Touches-watchers p
Touches-watchers (step p readies) = Touches-watchers p

-- What the task at this place leaves behind when it has ended its rounds so.
abbrev pub at_end : ℕ → Round → Shared → Shared
at_end i again k = k
at_end i dies k = (k.0, lowered k.1 i)

-- The flags then.
abbrev pub flags_at_end : ℕ → Round → List Bool → List Bool
flags_at_end i again flags = flags
flags_at_end i dies flags = lower flags i

at_end-watchers :
    (i : ℕ) (r : Round) (k : Shared) (flags : List Bool)
    → k.1.watchers ≡ flags
    → (at_end i r k).1.watchers ≡ flags_at_end i r flags
at_end-watchers i again k flags e = e
at_end-watchers i dies k flags e = ap (λ l. lower l i) e

module _ (H : Host) (cfg : HttpCfg H.F64) where
  kept-on_result :
      (r : Result Unit WErr) (w : World H) → kept H cfg (on_result H r w).1 ≡ kept H cfg w
  unfolding on_result throttle sleep_secs
  kept-on_result r w = ground arith

  kept-watch_items :
      (kind : Kind) (S : Streams H) (ns sel : Text) (timeout : ℕ) (w : World H)
      → kept H cfg (watch_items H S kind ns sel timeout w).1 ≡ kept H cfg w
  unfolding watch_items
  kept-watch_items config_map S ns sel timeout w = ground arith
  kept-watch_items secret S ns sel timeout w = ground arith

module _ (H : Host) (cfg : HttpCfg H.F64) (ctx : Ctx H.Json) (kind : Kind)
    (request_url : Option Text) where
  Touches-work_event :
      (event_type : Text) (item : Item) (w : World H)
      → Touches
          (kept H cfg w)
          (kept H cfg (work_event H cfg ctx kind request_url event_type item w).1)
  Touches-work_event event_type item w =
      Touches-one (remembers kind item _ (is_deleted event_type))
        (kept-work_event H cfg ctx kind request_url event_type item w)

  Touches-on_event :
      (ignore : Bool) (event_type : Text) (item : Item) (w : World H)
      → Touches
          (kept H cfg w)
          (kept H cfg (on_event H cfg ctx kind request_url ignore event_type item w).1)
  unfolding on_event
  Touches-on_event false event_type item w = Touches-work_event event_type item w
  Touches-on_event true event_type item w =
      let noted = Touches-one {k = kept H cfg w} (notes_event kind event_type item) refl in
      elim (Bool-cases (skip_event w.maps kind event_type item)) [
        | inl skip ↦ rw skip noted
        | inr work ↦ rw work (Touches-trans noted (Touches-work_event event_type item _))
      ]

  Touches-on_contact :
      (first_event : Bool) (w : World H)
      → Touches (kept H cfg w) (kept H cfg (on_contact H first_event w).1)
  unfolding on_contact
  Touches-on_contact true w = step (step done readies) (contacts (H.elapsed_ms w.net))
  Touches-on_contact false w = step done (contacts (H.elapsed_ms w.net))

  Touches-watch_events :
      (ignore : Bool) (events : List Delivery) (first_event : Bool) (w : World H)
      → Touches
          (kept H cfg w)
          (kept H cfg (watch_events H cfg ctx kind request_url ignore first_event events w).1)
  unfolding watch_events
  Touches-watch_events ignore [] first_event w = done
  Touches-watch_events ignore (err e ∷ events) first_event w = done
  Touches-watch_events ignore (ok (event_type, item) ∷ events) first_event w =
      let w₁ = (on_contact H first_event w).1 in
      let worked = on_event H cfg ctx kind request_url ignore event_type item w₁ in
      let after =
        Touches-trans (Touches-on_contact first_event w)
          (Touches-on_event ignore event_type item w₁) in
      continue-keeps (λ v. Touches (kept H cfg w) (kept H cfg v)) worked.0 _ worked.1 after
        (λ u. Touches-trans after (Touches-watch_events ignore events false worked.1))

  Touches-watch_resource_iterator :
      (S : Streams H) (namespace : Text) (ignore : Bool) (w : World H)
      → Touches
          (kept H cfg w)
          (kept H cfg (watch_resource_iterator H cfg ctx kind request_url S namespace ignore w).1)
  unfolding watch_resource_iterator
  Touches-watch_resource_iterator S namespace ignore w =
      let sel = selector ctx in
      let msg = watching_msg kind namespace sel ctx.watch_server_timeout ctx.watch_client_timeout in
      let opened =
        watch_items H S kind namespace sel (ctx.watch_server_timeout % u32_limit)
          (debug H msg w).1 in
      let same = Touches-same (kept-watch_items H cfg kind S namespace sel _ _) in
      elim opened.0
        as (λ got. Touches (kept H cfg w) (
          kept H cfg
            (elim got as (λ _. Result Unit WErr × World H) [
              | ok events ↦ watch_events H cfg ctx kind request_url ignore true events opened.1
              | err e ↦ (err (kube e), opened.1)
            ]).1)) [
              | ok events ↦ Touches-trans same (Touches-watch_events ignore events true opened.1)
              | err e ↦ same
            ]

module _ (H : Host) (cfg : HttpCfg H.F64) (ctx : Ctx H.Json) (S : Streams H)
    (order : List (Key × CachedItem) → List (Key × CachedItem)) (page_fuel : ℕ) (kind : Kind)
    (namespace : Text) (request_url : Option Text) (ignore : Bool) where
  Touches-watch_round :
      (w : World H)
      → Touches (kept H cfg w) (
          kept H cfg
            (watch_round H cfg ctx S order page_fuel kind namespace request_url ignore w).1)
  unfolding watch_round sleep_secs
  Touches-watch_round w =
      let listed = list_resources H cfg ctx order page_fuel kind namespace request_url ignore w in
      let after =
        Touches-Edited
          (list_resources-Edited H cfg ctx order page_fuel kind namespace request_url ignore w) in
      elim (Bool-cases (sleep_mode H cfg ctx S order page_fuel kind namespace request_url ignore)) [
        | inl sleeps ↦ rw sleeps (
            continue-keeps (λ v. Touches (kept H cfg w) (kept H cfg v)) listed.0 _ listed.1 after
              (λ u. after))
        | inr watches ↦
            rw watches
              (Touches-watch_resource_iterator H cfg ctx kind request_url S namespace ignore w)
      ]

  Touches-ended_round :
      (w : World H)
      → let worked = watch_round H cfg ctx S order page_fuel kind namespace request_url ignore w in
        Touches (kept H cfg w) (kept H cfg (on_result H worked.0 worked.1).1)
  Touches-ended_round w =
      let worked = watch_round H cfg ctx S order page_fuel kind namespace request_url ignore w in
      Touches-trans (Touches-watch_round w) (Touches-same (kept-on_result H cfg worked.0 worked.1))

  -- Whatever a watcher task does in any number of rounds: it takes a sequence of sections under the
  -- lock of the maps, contacts and marks that the sidecar is ready, and then, exactly if it dies,
  -- lowers its own flag.
  pub watch_task-Touches :
      (i fuel : ℕ) (w : World H)
      → let out =
          watch_task H cfg ctx S order page_fuel kind namespace request_url ignore i fuel w in
        (k : Shared) × Touches (kept H cfg w) k × (kept H cfg out.1 ≡ at_end i out.0 k)
  unfolding watch_task
  watch_task-Touches i zero w = (kept H cfg w, done, refl)
  watch_task-Touches i (suc fuel) w =
      let worked = watch_round H cfg ctx S order page_fuel kind namespace request_url ignore w in
      let ended = on_result H worked.0 worked.1 in
      let after = Touches-ended_round w in
      let rest =
        watch_task H cfg ctx S order page_fuel kind namespace request_url ignore i fuel ended.1 in
      let (k, later, same) = watch_task-Touches i fuel ended.1 in
      elim ended.0
        as (λ next.
          let out : Round × World H = elim next as (λ _. Round × World H) [
            | dies ↦ (dies, record ended.1 { health = lowered ended.1.health i })
            | again ↦ rest
          ] in
          (k : Shared) × Touches (kept H cfg w) k × (kept H cfg out.1 ≡ at_end i out.0 k)) [
            | dies ↦ (kept H cfg ended.1, after, refl)
            | again ↦ (k, Touches-trans after later, same)
          ]

  -- A watcher task that dies lowers its own flag and no other, and one that does not die leaves every
  -- flag as it is.
  pub watch_task-watchers :
      (i fuel : ℕ) (w : World H)
      → let out =
          watch_task H cfg ctx S order page_fuel kind namespace request_url ignore i fuel w in
        out.1.health.watchers ≡ flags_at_end i out.0 w.health.watchers
  watch_task-watchers i fuel w =
      let out = watch_task H cfg ctx S order page_fuel kind namespace request_url ignore i fuel w in
      let (k, run, same) = watch_task-Touches i fuel w in
      ap (λ (s : Shared). s.1.watchers) same
      ∙ at_end-watchers i out.0 k w.health.watchers (Touches-watchers run)
