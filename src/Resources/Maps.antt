-- ===== src/Resources/Maps.antt =====
-- src/resources.rs: what holds of the object map throughout. An entry stands under its own key, and
-- no key has two entries.
use k8s_sidecar_rs.Base.{
  Text, Bool, true, false, Option, none, List, [], ◌∷◌, ◌++◌, ◌≡◌, refl, sym, subst, arith, nat_eq,
  list_eq, pair_eq, inl, inr, Bool-cases,
}
use k8s_sidecar_rs.Base.Dict
use k8s_sidecar_rs.Base.Dict.{Dict, IsUnique, get-insert, get-remove, In, In-insert, In-remove}
use k8s_sidecar_rs.Kubeapi.Items
use k8s_sidecar_rs.Kubeapi.Items.{Kind, kind_eq, Item}
use k8s_sidecar_rs.Host.World.{Host, World}
use k8s_sidecar_rs.Http.Auth.{HttpCfg}
use k8s_sidecar_rs.Resources.Cache.{CachedItem, Maps, Key, from_item}
use k8s_sidecar_rs.Resources.Update.{Ctx, get_destination_folder}
use k8s_sidecar_rs.Resources.Process.{process_resource, remember, key_of}
use k8s_sidecar_rs.Resources.Frame.{kept-process_resource}
use k8s_sidecar_rs.Resources.List.{
  is_processed, set_version, sync_item, work_item, work_items, remove_items,
}

pub record IsWellFormed (m : Dict Key CachedItem) : Type 0 where
  pub unique : IsUnique m
  pub keyed : (x : Key × CachedItem) → In x m → x.0.1 ≡ x.1.namespace ++ x.1.name

pub nil-IsWellFormed : IsWellFormed []
nil-IsWellFormed = record { unique = λ x h. absurd h; keyed = λ x h. absurd h }

insert-keyed :
    (m : Dict Key CachedItem) (k : Kind) (item : Item)
    → IsWellFormed m
    → (x : Key × CachedItem) → In x (Dict.insert m (key_of k item) (from_item item))
    → x.0.1 ≡ x.1.namespace ++ x.1.name
unfolding from_item Items.key
insert-keyed m k item wf x h = elim (In-insert m (key_of k item) (from_item item) x h) [
  | inl same ↦ rw same refl
  | inr (old, differ) ↦ wf.keyed x old
]

pub remember-IsWellFormed :
    (m : Maps) (kind : Kind) (item : Item) (dest_folder : Option Text) (is_removed : Bool)
    → IsWellFormed m.object
    → IsWellFormed (remember m kind item dest_folder is_removed).object
unfolding remember
remember-IsWellFormed m kind item dest_folder true wf = record {
  unique = Dict.remove-IsUnique m.object (key_of kind item) wf.unique;
  keyed = λ x h. wf.keyed x (In-remove m.object (key_of kind item) x h).0;
}
remember-IsWellFormed m kind item dest_folder false wf = record {
  unique = Dict.insert-IsUnique m.object (key_of kind item) (from_item item) wf.unique;
  keyed = insert-keyed m.object kind item wf;
}

module _ (H : Host) (cfg : HttpCfg H.F64) (ctx : Ctx H.Json) (kind : Kind) (namespace : Text) where
  abbrev pub Good : World H → Type 0
  Good w = IsWellFormed w.maps.object

  process_resource-Good :
      (item : Item) (dest_folder : Option Text) (is_removed : Bool) (w : World H)
      → Good w
      → Good (process_resource H cfg ctx kind item dest_folder is_removed w).1
  process_resource-Good item dest_folder is_removed w g =
      subst (λ m. IsWellFormed m.0.object)
        (sym (kept-process_resource H cfg ctx kind item dest_folder is_removed w))
        (remember-IsWellFormed w.maps kind item dest_folder is_removed g)

  -- The destination is only logged.
  pub folder-kept :
      (item : Item) (w : World H) → (get_destination_folder H item ctx w).1.maps ≡ w.maps
  unfolding get_destination_folder
  folder-kept item w = ground arith

  sync_item-Good :
      (item : Item) (w : World H) → Good w → Good (sync_item H cfg ctx kind namespace item w).1
  unfolding sync_item
  sync_item-Good item w g =
      process_resource-Good item _ false _
        (subst (λ (m : Maps). IsWellFormed m.object) (sym (folder-kept item _)) g)

  work_item-Good :
      (ignore : Bool) (item : Item) (w : World H)
      → Good w
      → Good (work_item H cfg ctx kind namespace ignore item w).1
  unfolding work_item set_version
  work_item-Good true item w g = elim (Bool-cases (is_processed w.maps kind item)) [
    | inl old ↦ rw old g
    | inr new ↦ rw new (
        sync_item-Good item (record w { maps = set_version w.maps kind item })
          (record { unique = g.unique; keyed = g.keyed }))
  ]
  work_item-Good false item w g = sync_item-Good item w g

  pub work_items-Good :
      (ignore : Bool) (items : List Item) (changed : Bool) (w : World H)
      → Good w
      → Good (work_items H cfg ctx kind namespace ignore changed items w).1
  unfolding work_items
  work_items-Good ignore [] changed w g = g
  work_items-Good ignore (item ∷ items) changed w g =
      work_items-Good ignore items _ _ (work_item-Good ignore item w g)

  pub remove_items-Good :
      (items : List Item) (changed : Bool) (w : World H)
      → Good w
      → Good (remove_items H cfg ctx kind namespace changed items w).1
  unfolding remove_items
  remove_items-Good [] changed w g = g
  remove_items-Good (item ∷ items) changed w g =
      remove_items-Good items _ _ (process_resource-Good item none true _ g)
