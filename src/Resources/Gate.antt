-- ===== src/Resources/Gate.antt =====
-- src/resources.rs: `files_changed` gates SCRIPT and REQ_URL, and a version that was processed
-- already is skipped.
use k8s_sidecar_rs.Base.{
  Text, ℕ, Bool, true, false, Option, List, ok, ◌≡◌, refl, ◌∙◌, ap, arith, inl, inr, Bool-cases,
  beq_refl, nat_eq, list_eq, pair_eq,
}
use k8s_sidecar_rs.Base.Dict.{get-insert}
use k8s_sidecar_rs.Kubeapi.Items.{Kind, kind_eq, Item}
use k8s_sidecar_rs.Host.World.{Host, World}
use k8s_sidecar_rs.Host.Io.{info}
use k8s_sidecar_rs.Http.Auth.{HttpCfg}
use k8s_sidecar_rs.Resources.Cache.{CachedItem, Key, Maps}
use k8s_sidecar_rs.Resources.Update.{Ctx}
use k8s_sidecar_rs.Resources.Process.{key_of, remember}
use k8s_sidecar_rs.Resources.Frame.{kept-process_resource}
use k8s_sidecar_rs.Resources.Maps.{folder-kept}
use k8s_sidecar_rs.Resources.List.{
  sync_msg, is_processed, set_version, sync_item, work_item, find_items, apply_items, notify,
  list_resources,
}

module _ (kind : Kind) where
  pub is_processed-same :
      (m : Maps) (item again : Item)
      → key_of kind again ≡ key_of kind item
      → again.resource_version ≡ item.resource_version
      → is_processed m kind again ≡ is_processed m kind item
  unfolding is_processed
  is_processed-same m item again same_key same_version = rw (same_key, same_version) refl

  pub is_processed-version :
      (m n : Maps) (item : Item)
      → m.version ≡ n.version
      → is_processed m kind item ≡ is_processed n kind item
  unfolding is_processed
  is_processed-version m n item e = rw e refl

  pub is_processed-set :
      (m : Maps) (item : Item) → is_processed (set_version m kind item) kind item ≡ true
  unfolding is_processed set_version
  is_processed-set m item =
      rw get-insert (rw (beq_refl (key_of kind item)) (beq_refl item.resource_version))

module _ (H : Host) (cfg : HttpCfg H.F64) (ctx : Ctx H.Json)
    (order : List (Key × CachedItem) → List (Key × CachedItem)) where
  -- When the items of a pass have been found and applying them changes no file, `list_resources`
  -- succeeds and ends in the world that applying them left: neither the script is run nor the URL
  -- called.
  pub list_resources-quiet :
      (fuel : ℕ) (kind : Kind) (namespace : Text) (request_url : Option Text) (ignore : Bool)
      (w : World H) (items : List Item)
      → (w₁ w₂ : World H)
      → find_items H cfg ctx kind namespace fuel (info H (sync_msg kind namespace) w).1
        ≡ (ok items, w₁)
      → apply_items H cfg ctx order kind namespace ignore items w₁ ≡ (false, w₂)
      → list_resources H cfg ctx order fuel kind namespace request_url ignore w ≡ (ok tt, w₂)
  unfolding list_resources notify
  list_resources-quiet fuel kind namespace request_url ignore w items w₁ w₂ e q = ground arith

module _ (H : Host) (cfg : HttpCfg H.F64) (ctx : Ctx H.Json) (kind : Kind) (namespace : Text) where
  version-sync_item :
      (item : Item) (w : World H)
      → (sync_item H cfg ctx kind namespace item w).1.maps.version ≡ w.maps.version
  unfolding sync_item remember
  version-sync_item item w =
      ap (λ m. m.0.version) (kept-process_resource H cfg ctx kind item _ false _)
      ∙ ap (λ (m : Maps). m.version) (folder-kept H cfg ctx kind namespace item _)

  is_processed-work_item :
      (item : Item) (w : World H)
      → is_processed (work_item H cfg ctx kind namespace true item w).1.maps kind item ≡ true
  unfolding work_item
  is_processed-work_item item w = elim (Bool-cases (is_processed w.maps kind item)) [
    | inl old ↦ rw old old
    | inr new ↦
        let w' = record w { maps = set_version w.maps kind item } in
        rw new (
          is_processed-version kind _ _ item (version-sync_item item w')
          ∙ is_processed-set kind w.maps item)
  ]

  work_item-skip :
      (item : Item) (w : World H)
      → is_processed w.maps kind item ≡ true
      → let (changed, w₂) = work_item H cfg ctx kind namespace true item w in
        (changed ≡ false)
        × (w₂.disk ≡ w.disk)
        × (w₂.net ≡ w.net)
        × (w₂.maps ≡ w.maps)
        × (w₂.health ≡ w.health)
  unfolding work_item
  work_item-skip item w old = rw old (refl, refl, refl, refl, refl)

  -- With versions in use, after an item was worked on, working on an item of the same key and
  -- version answers `false` and leaves disk, network, maps and health alone.
  pub work_item-again :
      (item again : Item) (w : World H)
      → key_of kind again ≡ key_of kind item
      → again.resource_version ≡ item.resource_version
      → let w₁ = (work_item H cfg ctx kind namespace true item w).1 in
        let (changed, w₂) = work_item H cfg ctx kind namespace true again w₁ in
        (changed ≡ false)
        × (w₂.disk ≡ w₁.disk)
        × (w₂.net ≡ w₁.net)
        × (w₂.maps ≡ w₁.maps)
        × (w₂.health ≡ w₁.health)
  work_item-again item again w same_key same_version =
      let w₁ = (work_item H cfg ctx kind namespace true item w).1 in
      work_item-skip again w₁ (
        is_processed-same kind w₁.maps item again same_key same_version
        ∙ is_processed-work_item item w)
