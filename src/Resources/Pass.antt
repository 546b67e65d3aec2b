-- ===== src/Resources/Pass.antt =====
-- src/resources.rs: what a sync pass, once the items are fetched, leaves in the object map.
use k8s_sidecar_rs.Base.{
  Text, Bool, true, false, none, some, List, [], ◌∷◌, map, contains, ◌≡◌, ◌≢◌, ◌⊎◌, ascii, ◌↔◌,
  refl, ◌∙◌, ap, arith, ◌==◌, nat_eq, list_eq, pair_eq, list_beq_iff, inl, inr, Bool-cases,
  if◌then◌else◌,
}
use k8s_sidecar_rs.Base.Dict
use k8s_sidecar_rs.Base.Dict.{Dict, get-insert, In}
use k8s_sidecar_rs.Kubeapi.Items
use k8s_sidecar_rs.Kubeapi.Items.{Kind, kind_eq, kind_beq_iff, Item}
use k8s_sidecar_rs.Host.World.{Host, World}
use k8s_sidecar_rs.Http.Auth.{HttpCfg}
use k8s_sidecar_rs.Resources.Cache.{CachedItem, Maps, Key, from_item}
use k8s_sidecar_rs.Resources.Update.{Ctx}
use k8s_sidecar_rs.Resources.Process.{remember, key_of}
use k8s_sidecar_rs.Resources.Frame.{kept-process_resource}
use k8s_sidecar_rs.Resources.Maps.{IsWellFormed, work_items-Good, remove_items-Good, folder-kept}
use k8s_sidecar_rs.Resources.Stale.{found, names, stale_value, found-remove_stale}
use k8s_sidecar_rs.Resources.List.{
  is_processed, set_version, is_stale, is_all, sync_item, work_item, work_items, apply_items,
}

module _ (H : Host) (cfg : HttpCfg H.F64) (ctx : Ctx H.Json) (kind : Kind) (namespace : Text) where
  found-sync_item :
      (item : Item) (w : World H) (k : Key)
      → found H cfg ctx kind namespace (sync_item H cfg ctx kind namespace item w).1 k ≡ (
          if key_of kind item == k
          then some (from_item item)
          else found H cfg ctx kind namespace w k)
  unfolding sync_item remember
  found-sync_item item w k =
      ap (λ m. Dict.get m.0.object k) (kept-process_resource H cfg ctx kind item _ false _)
      ∙ ap (λ (m : Maps). Dict.get (remember m kind item none false).object k)
          (folder-kept H cfg ctx kind namespace item _)
      ∙ get-insert w.maps.object (key_of kind item) k (from_item item)

  names-cons_false :
      (item : Item) (items : List Item) (k : Key)
      → names H cfg ctx kind namespace (item ∷ items) k ≡ false
      → ((key_of kind item == k) ≡ false) × (names H cfg ctx kind namespace items k ≡ false)
  unfolding contains
  names-cons_false item items (j, key) h =
      ground (arith, list_beq_iff (Items.key item) key, list_beq_iff key (Items.key item))

  found-work_item :
      (ignore : Bool) (item : Item) (w : World H) (k : Key)
      → (key_of kind item == k) ≡ false
      → found H cfg ctx kind namespace (work_item H cfg ctx kind namespace ignore item w).1 k
        ≡ found H cfg ctx kind namespace w k
  unfolding work_item set_version
  found-work_item false item w k h = found-sync_item item w k ∙ rw h refl
  found-work_item true item w k h = elim (Bool-cases (is_processed w.maps kind item)) [
    | inl old ↦ rw old refl
    | inr new ↦
        rw new
          (found-sync_item item (record w { maps = set_version w.maps kind item }) k ∙ rw h refl)
  ]

  found-work_items :
      (ignore : Bool) (items : List Item) (changed : Bool) (w : World H) (k : Key)
      → names H cfg ctx kind namespace items k ≡ false
      → found H cfg ctx kind namespace
          (work_items H cfg ctx kind namespace ignore changed items w).1
          k
        ≡ found H cfg ctx kind namespace w k
  unfolding work_items
  found-work_items ignore [] changed w k h = refl
  found-work_items ignore (item ∷ items) changed w k h =
      let p = names-cons_false item items k h in
      found-work_items ignore items _ _ k p.1 ∙ found-work_item ignore item w k p.0

module _ (H : Host) (cfg : HttpCfg H.F64) (ctx : Ctx H.Json)
    (order : List (Key × CachedItem) → List (Key × CachedItem))
    (walk : (m : Dict Key CachedItem) (x : Key × CachedItem) → In x (order m) ↔ In x m)
    (kind : Kind) (namespace : Text) (ignore : Bool) (items : List Item) (w : World H)
    (wf : IsWellFormed w.maps.object) where
  abbrev pub after : World H
  after = (apply_items H cfg ctx order kind namespace ignore items w).1

  -- For a well-formed object map, and a walk that passes over exactly the map's entries: after the
  -- pass it is well-formed again. Each entry stands under its own item's key, and no key has two
  -- entries.
  pub apply_items-IsWellFormed : IsWellFormed after.maps.object
  unfolding apply_items
  apply_items-IsWellFormed =
      remove_items-Good H cfg ctx kind namespace _ _ _
        (work_items-Good H cfg ctx kind namespace ignore items false w wf)

  abbrev mid : Bool × World H
  mid = work_items H cfg ctx kind namespace ignore false items w

  found-after :
      (k : Key)
      → Dict.get after.maps.object k ≡ (
          if stale_value H cfg ctx kind namespace
            (map Items.key items)
            k
            (Dict.get mid.1.maps.object k)
          then none
          else Dict.get mid.1.maps.object k)
  unfolding apply_items
  found-after k =
      found-remove_stale H cfg ctx kind namespace (map Items.key items) order walk mid.0 mid.1 k
        (work_items-Good H cfg ctx kind namespace ignore items false w wf)

  -- For an object map with unique, well-keyed entries, and a walk that passes over exactly the
  -- map's entries: after the pass, every cached resource of the pass's kind, and of its namespace
  -- unless that is ALL, has the key of one of the items, so that no stale entry is left.
  pub apply_items-no_stale :
      (k : Key) (cached : CachedItem)
      → Dict.get after.maps.object k ≡ some cached
      → k.0 ≡ kind
      → (namespace ≡ ascii "ALL") ⊎ (cached.namespace ≡ namespace)
      → contains (map Items.key items) k.1 ≡ true
  unfolding is_stale is_all
  apply_items-no_stale k cached h same_kind (inl all) =
      ground (arith, found-after k, kind_beq_iff k.0 kind, list_beq_iff namespace (ascii "ALL"))
  apply_items-no_stale k cached h same_kind (inr same) =
      ground (arith, found-after k, kind_beq_iff k.0 kind, list_beq_iff cached.namespace namespace)

  -- For a well-formed object map, and a walk that passes over exactly the map's entries: a key of
  -- another kind than the pass's has the same entry, or none, after the pass as before.
  pub apply_items-other_kind :
      (k : Key) → k.0 ≢ kind → Dict.get after.maps.object k ≡ Dict.get w.maps.object k
  unfolding is_stale
  apply_items-other_kind (j, key) h = ground (
    arith,
    found-after (j, key),
    kind_beq_iff j kind,
    kind_beq_iff kind j,
    found-work_items H cfg ctx kind namespace ignore items false w (j, key),
  )

  -- For a well-formed object map, and a walk that passes over exactly the map's entries: when the
  -- namespace is not ALL, a cached resource of another namespace whose key is none of the items'
  -- keys is still there, unchanged, after the pass.
  pub apply_items-other_namespace :
      (k : Key) (cached : CachedItem)
      → namespace ≢ ascii "ALL"
      → Dict.get w.maps.object k ≡ some cached
      → cached.namespace ≢ namespace
      → contains (map Items.key items) k.1 ≡ false
      → Dict.get after.maps.object k ≡ some cached
  unfolding is_stale is_all
  apply_items-other_namespace k cached all h other fresh = ground (
    arith,
    found-after k,
    list_beq_iff namespace (ascii "ALL"),
    list_beq_iff cached.namespace namespace,
    found-work_items H cfg ctx kind namespace ignore items false w k,
  )
