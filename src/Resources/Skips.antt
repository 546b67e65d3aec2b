-- ===== src/Resources/Skips.antt =====
-- src/resources.rs, watch_resource_iterator: with IGNORE_ALREADY_PROCESSED an event that was worked on
-- is left aside the next time, as after a reconnect, which delivers every resource again.
use k8s_sidecar_rs.Base.{
  Text, Bool, true, false, Option, ok, ◌≡◌, refl, ◌∙◌, ap, inl, inr, Bool-cases,
}
use k8s_sidecar_rs.Kubeapi.Items.{Kind, Item}
use k8s_sidecar_rs.Health.Status.{Health}
use k8s_sidecar_rs.Host.World.{Host, World}
use k8s_sidecar_rs.Http.Auth.{HttpCfg}
use k8s_sidecar_rs.Resources.Cache.{Maps}
use k8s_sidecar_rs.Resources.Update.{Ctx}
use k8s_sidecar_rs.Resources.Process.{remember, key_of}
use k8s_sidecar_rs.Resources.List.{is_processed}
use k8s_sidecar_rs.Resources.Gate.{is_processed-same, is_processed-version, is_processed-set}
use k8s_sidecar_rs.Resources.Events.{kept-work_event}
use k8s_sidecar_rs.Resources.Watch.{
  is_deleted, is_upsert, skip_event, note_event, work_event, on_event,
}

remember-version :
    (m : Maps) (kind : Kind) (item : Item) (dest : Option Text) (removed : Bool)
    → (remember m kind item dest removed).version ≡ m.version
unfolding remember
remember-version m kind item dest true = refl
remember-version m kind item dest false = refl

module _ (H : Host) (cfg : HttpCfg H.F64) (ctx : Ctx H.Json) (kind : Kind)
    (request_url : Option Text) where
  version-work_event :
      (event_type : Text) (item : Item) (w : World H)
      → (work_event H cfg ctx kind request_url event_type item w).1.maps.version ≡ w.maps.version
  version-work_event event_type item w =
      ap (λ (p : Maps × Health). p.0.version)
        (kept-work_event H cfg ctx kind request_url event_type item w)
      ∙ remember-version w.maps kind item _ (is_deleted event_type)

  is_processed-note_event :
      (m : Maps) (event_type : Text) (item : Item)
      → is_upsert event_type ≡ true
      → is_processed (note_event m kind event_type item) kind item ≡ true
  unfolding note_event
  is_processed-note_event m event_type item up = elim (Bool-cases (is_processed m kind item)) [
    | inl old ↦ rw (old, up) old
    | inr new ↦ rw (new, up) (is_processed-set kind m item)
  ]

  is_processed-on_event :
      (event_type : Text) (item : Item) (w : World H)
      → is_upsert event_type ≡ true
      → is_processed (on_event H cfg ctx kind request_url true event_type item w).1.maps kind item
        ≡ true
  unfolding on_event
  is_processed-on_event event_type item w up =
      let noted = is_processed-note_event w.maps event_type item up in
      let w' = record w { maps = note_event w.maps kind event_type item } in
      elim (Bool-cases (skip_event w.maps kind event_type item)) [
        | inl skip ↦ rw skip noted
        | inr work ↦ rw work (
            is_processed-version kind _ w'.maps item (version-work_event event_type item w')
            ∙ noted)
      ]

  on_event-skip :
      (event_type : Text) (item : Item) (w : World H)
      → is_upsert event_type ≡ true
      → is_processed w.maps kind item ≡ true
      → let (r, w₂) = on_event H cfg ctx kind request_url true event_type item w in
        (r ≡ ok tt)
        × (w₂.disk ≡ w.disk)
        × (w₂.net ≡ w.net)
        × (w₂.maps ≡ w.maps)
        × (w₂.health ≡ w.health)
  unfolding on_event skip_event note_event
  on_event-skip event_type item w up old = rw (old, up) (refl, refl, refl, refl, refl)

  -- With IGNORE_ALREADY_PROCESSED, once an ADDED or MODIFIED event has been handled, another ADDED or
  -- MODIFIED event of the same resource at the same version succeeds and leaves disk, network, maps
  -- and health alone.
  pub on_event-again :
      (first_type again_type : Text) (item again : Item) (w : World H)
      → is_upsert first_type ≡ true
      → is_upsert again_type ≡ true
      → key_of kind again ≡ key_of kind item
      → again.resource_version ≡ item.resource_version
      → let w₁ = (on_event H cfg ctx kind request_url true first_type item w).1 in
        let (r, w₂) = on_event H cfg ctx kind request_url true again_type again w₁ in
        (r ≡ ok tt)
        × (w₂.disk ≡ w₁.disk)
        × (w₂.net ≡ w₁.net)
        × (w₂.maps ≡ w₁.maps)
        × (w₂.health ≡ w₁.health)
  on_event-again first_type again_type item again w up up' same_key same_version =
      let w₁ = (on_event H cfg ctx kind request_url true first_type item w).1 in
      on_event-skip again_type again w₁ up' (
        is_processed-same kind w₁.maps item again same_key same_version
        ∙ is_processed-on_event first_type item w up)
