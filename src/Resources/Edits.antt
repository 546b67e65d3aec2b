-- ===== src/Resources/Edits.antt =====
-- src/resources.rs: the sections under the lock of the maps, as steps, and that a sync pass is a
-- sequence of them. What other tasks do between two such sections is a sequence of steps too.
use k8s_sidecar_rs.Base.{
  Text, ℕ, Bool, true, false, Option, none, List, [], ◌∷◌, ◌≡◌, refl, ◌∙◌, sym, subst, inl, inr,
  Bool-cases, nat_eq, list_eq,
}
use k8s_sidecar_rs.Kubeapi.Items.{Kind, Item}
use k8s_sidecar_rs.Health.Status.{Health}
use k8s_sidecar_rs.Host.World.{Host, World}
use k8s_sidecar_rs.Host.Io.{info, continue-keeps}
use k8s_sidecar_rs.Http.Auth.{HttpCfg}
use k8s_sidecar_rs.Resources.Cache.{CachedItem, Key, Maps}
use k8s_sidecar_rs.Resources.Update.{Ctx}
use k8s_sidecar_rs.Resources.Process.{remember, process_resource}
use k8s_sidecar_rs.Resources.Frame.{kept, kept-process_resource}
use k8s_sidecar_rs.Resources.Events.{kept-notify, kept-folder}
use k8s_sidecar_rs.Resources.List.{
  list_resources, find_items, apply_items, work_item, work_items, sync_item, remove_items,
  is_processed, set_version, sync_msg,
}
use k8s_sidecar_rs.Resources.Watch.{note_event}
use k8s_sidecar_rs.Resources.Fetch.{kept-find_items}

-- One section: in `process_resource`, in `list_resources`, and in `watch_resource_iterator`.
pub data Edit (m : Maps) : Maps → Type 0 where
  remembers :
      (kind : Kind) (item : Item) (dest_folder : Option Text) (is_removed : Bool)
      → Edit m (remember m kind item dest_folder is_removed)
  sets_version : (kind : Kind) (item : Item) → Edit m (set_version m kind item)
  notes_event :
      (kind : Kind) (event_type : Text) (item : Item) → Edit m (note_event m kind event_type item)

pub data Edits (m : Maps) : Maps → Type 0 where
  none_left : Edits m m
  and_then_one : {m₁ m₂ : Maps} → Edits m m₁ → Edit m₁ m₂ → Edits m m₂

pub Edits-trans : {a b c : Maps} → Edits a b → Edits b c → Edits a c
Edits-trans p none_left = p
Edits-trans p (and_then_one q e) = and_then_one (Edits-trans p q) e

abbrev pub Shared : Type 0
Shared = Maps × Health

-- The maps have been edited, and the health state is as it was.
abbrev pub Edited : (k k' : Shared) → Type 0
Edited k k' = Edits k.0 k'.0 × (k'.1 ≡ k.1)

pub Edited-same : {k k' : Shared} → k' ≡ k → Edited k k'
Edited-same {k} e = subst (Edited k) (sym e) (none_left, refl)

pub Edited-trans : {a b c : Shared} → Edited a b → Edited b c → Edited a c
Edited-trans p q = (Edits-trans p.0 q.0, q.1 ∙ p.1)

pub Edited-one : {k k' : Shared} {m : Maps} → Edit k.0 m → k' ≡ (m, k.1) → Edited k k'
Edited-one {k} e same = subst (Edited k) (sym same) (and_then_one none_left e, refl)

module _ (H : Host) (cfg : HttpCfg H.F64) (ctx : Ctx H.Json) (kind : Kind) (namespace : Text) where
  Edited-process_resource :
      (item : Item) (dest_folder : Option Text) (is_removed : Bool) (w : World H)
      → Edited
          (kept H cfg w)
          (kept H cfg (process_resource H cfg ctx kind item dest_folder is_removed w).1)
  Edited-process_resource item dest_folder is_removed w =
      Edited-one (remembers kind item dest_folder is_removed)
        (kept-process_resource H cfg ctx kind item dest_folder is_removed w)

  Edited-sync_item :
      (item : Item) (w : World H)
      → Edited (kept H cfg w) (kept H cfg (sync_item H cfg ctx kind namespace item w).1)
  unfolding sync_item
  Edited-sync_item item w =
      Edited-trans (Edited-same (kept-folder H cfg ctx kind none item _))
        (Edited-process_resource item _ false _)

  Edited-work_item :
      (ignore : Bool) (item : Item) (w : World H)
      → Edited (kept H cfg w) (kept H cfg (work_item H cfg ctx kind namespace ignore item w).1)
  unfolding work_item
  Edited-work_item false item w = Edited-sync_item item w
  Edited-work_item true item w = elim (Bool-cases (is_processed w.maps kind item)) [
    | inl old ↦ rw old (Edited-same refl)
    | inr new ↦
        rw new (Edited-trans (Edited-one (sets_version kind item) refl) (Edited-sync_item item _))
  ]

  Edited-work_items :
      (ignore : Bool) (items : List Item) (changed : Bool) (w : World H)
      → Edited
          (kept H cfg w)
          (kept H cfg (work_items H cfg ctx kind namespace ignore changed items w).1)
  unfolding work_items
  Edited-work_items ignore [] changed w = Edited-same refl
  Edited-work_items ignore (item ∷ items) changed w =
      Edited-trans (Edited-work_item ignore item w) (Edited-work_items ignore items _ _)

  Edited-remove_items :
      (items : List Item) (changed : Bool) (w : World H)
      → Edited (kept H cfg w) (kept H cfg (remove_items H cfg ctx kind namespace changed items w).1)
  unfolding remove_items
  Edited-remove_items [] changed w = Edited-same refl
  Edited-remove_items (item ∷ items) changed w =
      Edited-trans (Edited-process_resource item none true _) (Edited-remove_items items _ _)

module _ (H : Host) (cfg : HttpCfg H.F64) (ctx : Ctx H.Json)
    (order : List (Key × CachedItem) → List (Key × CachedItem)) where
  Edited-apply_items :
      (kind : Kind) (namespace : Text) (ignore : Bool) (items : List Item) (w : World H)
      → Edited
          (kept H cfg w)
          (kept H cfg (apply_items H cfg ctx order kind namespace ignore items w).1)
  unfolding apply_items
  Edited-apply_items kind namespace ignore items w =
      Edited-trans (Edited-work_items H cfg ctx kind namespace ignore items false w)
        (Edited-remove_items H cfg ctx kind namespace _ _ _)

  -- However a sync pass goes and whether it succeeds or not: the maps after it come from those before
  -- it by a sequence of the sections under the lock, and the health state is as it was.
  pub list_resources-Edited :
      (fuel : ℕ) (kind : Kind) (namespace : Text) (request_url : Option Text) (ignore : Bool)
      (w : World H)
      → Edited
          (kept H cfg w)
          (kept H cfg (list_resources H cfg ctx order fuel kind namespace request_url ignore w).1)
  unfolding list_resources
  list_resources-Edited fuel kind namespace request_url ignore w =
      let found = find_items H cfg ctx kind namespace fuel (info H (sync_msg kind namespace) w).1 in
      let start = Edited-same (kept-find_items H cfg ctx kind namespace fuel _) in
      continue-keeps (λ v. Edited (kept H cfg w) (kept H cfg v)) found.0 _ found.1 start
        (λ items. Edited-trans start (
          Edited-trans (Edited-apply_items kind namespace ignore items found.1)
            (Edited-same (kept-notify H cfg ctx request_url _ _))))
