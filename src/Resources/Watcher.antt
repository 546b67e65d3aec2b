-- ===== src/Resources/Watcher.antt =====
-- src/resources.rs, watch_resource_iterator and watch_task: invariants of a whole connection, and what
-- ends a watcher.
use k8s_sidecar_rs.Base.{
  Text, Bool, true, false, Option, List, [], ◌∷◌, Result, ok, err, ◌≡◌, ◌⊎◌, ◌↔◌, refl, ◌∙◌, sym,
  ap, subst, arith, ◌==◌, nat_eq, list_eq, pair_eq, inl, inr, Bool-cases,
}
use k8s_sidecar_rs.Kubeapi.Items.{Kind, kind_eq, Item, api, transport}
use k8s_sidecar_rs.Kubeapi.Watch.{Delivery}
use k8s_sidecar_rs.Health.Status.{Health}
use k8s_sidecar_rs.Host.World.{Host, World}
use k8s_sidecar_rs.Host.Io.{continue-keeps}
use k8s_sidecar_rs.Http.Auth.{HttpCfg}
use k8s_sidecar_rs.Resources.Cache.{Maps}
use k8s_sidecar_rs.Resources.Update.{Ctx}
use k8s_sidecar_rs.Resources.Maps.{IsWellFormed, remember-IsWellFormed}
use k8s_sidecar_rs.Resources.Events.{kept-work_event, note_event-object}
use k8s_sidecar_rs.Resources.List.{WErr, kube, other, out_of_fuel}
use k8s_sidecar_rs.Resources.Watch.{
  is_deleted, skip_event, work_event, on_event, on_contact, watch_events, dies, on_result,
  sleep_secs, throttle,
}

module _ (H : Host) (cfg : HttpCfg H.F64) (ctx : Ctx H.Json) (kind : Kind)
    (request_url : Option Text) where
  work_event-IsWellFormed :
      (event_type : Text) (item : Item) (w : World H)
      → IsWellFormed w.maps.object
      → IsWellFormed (work_event H cfg ctx kind request_url event_type item w).1.maps.object
  work_event-IsWellFormed event_type item w wf =
      subst (λ (p : Maps × Health). IsWellFormed p.0.object)
        (sym (kept-work_event H cfg ctx kind request_url event_type item w))
        (remember-IsWellFormed w.maps kind item _ (is_deleted event_type) wf)

  on_event-IsWellFormed :
      (ignore : Bool) (event_type : Text) (item : Item) (w : World H)
      → IsWellFormed w.maps.object
      → IsWellFormed (on_event H cfg ctx kind request_url ignore event_type item w).1.maps.object
  unfolding on_event
  on_event-IsWellFormed false event_type item w wf = work_event-IsWellFormed event_type item w wf
  on_event-IsWellFormed true event_type item w wf =
      let noted = subst IsWellFormed (sym (note_event-object w.maps kind event_type item)) wf in
      elim (Bool-cases (skip_event w.maps kind event_type item)) [
        | inl skip ↦ rw skip noted
        | inr work ↦ rw work (work_event-IsWellFormed event_type item _ noted)
      ]

  -- For a well-formed object map: after the deliveries of a connection, whatever they are and
  -- however it ends, the object map is well-formed again.
  pub watch_events-IsWellFormed :
      (ignore first_event : Bool) (events : List Delivery) (w : World H)
      → IsWellFormed w.maps.object
      → IsWellFormed
          (watch_events H cfg ctx kind request_url ignore first_event events w).1.maps.object
  unfolding watch_events on_contact
  watch_events-IsWellFormed ignore first_event [] w wf = wf
  watch_events-IsWellFormed ignore first_event (err e ∷ events) w wf = wf
  watch_events-IsWellFormed ignore first_event (ok (event_type, item) ∷ events) w wf =
      let step =
        on_event H cfg ctx kind request_url ignore event_type item (on_contact H first_event w).1 in
      let after = on_event-IsWellFormed ignore event_type item (on_contact H first_event w).1 wf in
      continue-keeps (λ v. IsWellFormed v.maps.object) step.0 _ step.1 after
        (λ u. watch_events-IsWellFormed ignore false events step.1 after)

  health-on_event :
      (ignore : Bool) (event_type : Text) (item : Item) (w : World H)
      → (on_event H cfg ctx kind request_url ignore event_type item w).1.health ≡ w.health
  unfolding on_event
  health-on_event false event_type item w =
      ap (λ (p : Maps × Health). p.1) (kept-work_event H cfg ctx kind request_url event_type item w)
  health-on_event true event_type item w =
      elim (Bool-cases (skip_event w.maps kind event_type item)) [
        | inl skip ↦ rw skip refl
        | inr work ↦ rw work (
            ap (λ (p : Maps × Health). p.1)
              (kept-work_event H cfg ctx kind request_url event_type item _))
      ]

  ready-contact :
      (first_event : Bool) (w : World H)
      → w.health.ready ≡ true
      → (on_contact H first_event w).1.health.ready ≡ true
  unfolding on_contact
  ready-contact true w r = refl
  ready-contact false w r = r

  ready-watch_events :
      (ignore first_event : Bool) (events : List Delivery) (w : World H)
      → w.health.ready ≡ true
      → (watch_events H cfg ctx kind request_url ignore first_event events w).1.health.ready ≡ true
  unfolding watch_events
  ready-watch_events ignore first_event [] w r = r
  ready-watch_events ignore first_event (err e ∷ events) w r = r
  ready-watch_events ignore first_event (ok (event_type, item) ∷ events) w r =
      let w₁ = (on_contact H first_event w).1 in
      let step = on_event H cfg ctx kind request_url ignore event_type item w₁ in
      let still =
        ap Health.ready (health-on_event ignore event_type item w₁)
        ∙ ready-contact first_event w r in
      continue-keeps (λ v. v.health.ready ≡ true) step.0 _ step.1 still
        (λ u. ready-watch_events ignore false events step.1 still)

  -- After a connection whose first delivery is an event, whatever follows, the sidecar is ready.
  pub watch_events-ready :
      (ignore : Bool) (event_type : Text) (item : Item) (events : List Delivery) (w : World H)
      → (watch_events H cfg ctx kind request_url ignore true
          (ok (event_type, item) ∷ events)
          w).1.health.ready
        ≡ true
  unfolding watch_events on_contact
  watch_events-ready ignore event_type item events w =
      let w₁ = (on_contact H true w).1 in
      let step = on_event H cfg ctx kind request_url ignore event_type item w₁ in
      let ready = ap Health.ready (health-on_event ignore event_type item w₁) in
      continue-keeps (λ v. v.health.ready ≡ true) step.0 _ step.1 ready
        (λ u. ready-watch_events ignore false events step.1 ready)

-- A round of the watcher task ends it exactly if its outcome is the API server's answer 500, or
-- the model's own `out_of_fuel`. After every other outcome the loop goes on.
pub on_result-dies :
    (H : Host) (r : Result Unit WErr) (w : World H)
    → ((on_result H r w).0 ≡ dies)
      ↔ (((reason : Text) × (r ≡ err (kube (api 500 reason)))) ⊎ (r ≡ err out_of_fuel))
unfolding on_result throttle sleep_secs
on_result-dies H (ok u) w = (λ h. cc, λ p. elim p [ inl (reason, e) ↦ cc | inr e ↦ cc ])
on_result-dies H (err (kube (api code reason))) w = elim (Bool-cases (code == 500)) [
  | inl same ↦ rw same (λ h. inl (reason, ground (arith)), λ p. refl)
  | inr differ ↦ rw differ (λ h. cc, λ p. elim p [ inl (r', e) ↦ ground (arith) | inr e ↦ cc ])
]
on_result-dies H (err (kube (transport m))) w =
    (λ h. cc, λ p. elim p [ inl (reason, e) ↦ cc | inr e ↦ cc ])
on_result-dies H (err (other m)) w = (λ h. cc, λ p. elim p [ inl (reason, e) ↦ cc | inr e ↦ cc ])
on_result-dies H (err out_of_fuel) w = (λ h. inr refl, λ p. refl)
