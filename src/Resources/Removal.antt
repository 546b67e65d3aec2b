-- ===== src/Resources/Removal.antt =====
-- src/resources.rs: the cache holds what a later removal needs. A cached item keeps key names, and
-- values of `.url` keys only.
use mathlib.Core.Option
use k8s_sidecar_rs.Base.{
  Text, Bytes, Bool, true, false, ◌||◌, Option, none, some, List, [], ◌∷◌, map, ◌≡◌, refl, ◌∙◌, ap,
  inl, inr, Option-cases, unwrap_or,
}
use k8s_sidecar_rs.Base.Str.{strip_suffix, ends_with}
use k8s_sidecar_rs.Base.Dict.{Dict}
use k8s_sidecar_rs.Kubeapi.Items.{Kind, config_map, secret, Item, key}
use k8s_sidecar_rs.Host.World.{Host, World}
use k8s_sidecar_rs.Http.Auth.{HttpCfg}
use k8s_sidecar_rs.Resources.Cache.{
  url_suffix, keep_url_value, keep_entry, restore_entry, from_item, to_removal_item,
}
use k8s_sidecar_rs.Resources.Update.{
  Ctx, Content, text, bin, text_entries, bin_entries, file_data, final_name, store, update_file,
  iterate_from, iterate_data,
}
use k8s_sidecar_rs.Resources.Process.{
  sync_new, sync_old, is_none, when_some, process_kind, process_resource, remember, old_dest_of,
}

-- The item that removal sees, from the item that was cached.
abbrev pub recalled : Item → Item
recalled item = to_removal_item (from_item item)

module _ (H : Host) (cfg : HttpCfg H.F64) (ctx : Ctx H.Json) (kind : Kind) (item : Item) where
  module _ (con : Bytes → Content) (dest_folder content_type : Text) where
    update_file-recalled :
        (k : Text) (v : Bytes) (w : World H)
        → update_file H cfg k
            (con (unwrap_or (keep_url_value k v) []))
            dest_folder
            (recalled item)
            kind
            ctx
            content_type
            true
            w
          ≡ update_file H cfg k (con v) dest_folder item kind ctx content_type true w
    unfolding update_file file_data final_name store keep_url_value from_item to_removal_item
        ends_with
    update_file-recalled k v w = elim (Option-cases (strip_suffix k url_suffix)) [
      | inl e ↦ rw (e) refl
      | inr (t, e) ↦ rw (e) refl
    ]

    iterate_from-recalled :
        (changed : Bool) (m : Dict Text Bytes) (w : World H)
        → iterate_from H cfg changed
            (map (λ (e : Text × Bytes). (e.0, con e.1)) (map restore_entry (map keep_entry m)))
            dest_folder
            (recalled item)
            kind
            ctx
            content_type
            true
            w
          ≡ iterate_from H cfg changed
              (map (λ (e : Text × Bytes). (e.0, con e.1)) m)
              dest_folder
              item
              kind
              ctx
              content_type
              true
              w
    unfolding iterate_from
    iterate_from-recalled changed [] w = refl
    iterate_from-recalled changed ((k, v) ∷ m) w =
        let next = update_file H cfg k (con v) dest_folder item kind ctx content_type true w in
        ap
          (λ (p : Bool × World H).
            iterate_from H cfg (changed || p.0)
              (map (λ (e : Text × Bytes). (e.0, con e.1)) (map restore_entry (map keep_entry m)))
              dest_folder (recalled item) kind ctx content_type true p.1)
          (update_file-recalled k v w)
        ∙ iterate_from-recalled (changed || next.0) m next.1

    sync_new-recalled :
        (values : Option (Dict Text Bytes)) (w : World H)
        → sync_new H cfg ctx kind
            (map (λ (e : Text × Bytes). (e.0, con e.1)))
            (Option.map (map restore_entry) (Option.map (map keep_entry) values))
            dest_folder
            (recalled item)
            content_type
            true
            w
          ≡ sync_new H cfg ctx kind
              (map (λ (e : Text × Bytes). (e.0, con e.1)))
              values
              dest_folder
              item
              content_type
              true
              w
    unfolding sync_new iterate_data
    sync_new-recalled none w = refl
    sync_new-recalled (some m) w = iterate_from-recalled false m w

sync_old-removed :
    (H : Host) (cfg : HttpCfg H.F64) (ctx : Ctx H.Json) (kind : Kind) {V W : Type 0}
    (entries : Dict Text V → List (Text × Content)) (old : Option (Dict Text V))
    (new : Option (Dict Text W)) (old_dest dest : Text) (old_item : Item) (content_type : Text)
    (w : World H)
    → sync_old H cfg ctx kind entries old new old_dest dest old_item content_type true w
      ≡ (false, w)
unfolding sync_old
sync_old-removed H cfg ctx kind entries none new old_dest dest old_item content_type w = refl
sync_old-removed H cfg ctx kind entries (some old) new old_dest dest old_item content_type w = refl

module _ (H : Host) (cfg : HttpCfg H.F64) (ctx : Ctx H.Json) (kind : Kind) where
  is_none-map : {A B : Type 0} (f : A → B) (o : Option A) → is_none (Option.map f o) ≡ is_none o
  is_none-map f none = refl
  is_none-map f (some a) = refl

  when_some-map :
      {V W : Type 0} (f : Dict Text V → Dict Text W) (o : Option (Dict Text V)) (msg : Text)
      (w : World H)
      → when_some H cfg ctx kind (Option.map f o) msg w ≡ when_some H cfg ctx kind o msg w
  when_some-map f none msg w = refl
  when_some-map f (some a) msg w = refl

  sync_new-recalled_text :
      (item : Item) (dest content_type : Text) (w : World H)
      → sync_new H cfg ctx kind text_entries
          (recalled item).text
          dest
          (recalled item)
          content_type
          true
          w
        ≡ sync_new H cfg ctx kind text_entries item.text dest item content_type true w
  unfolding from_item to_removal_item
  sync_new-recalled_text item dest content_type w =
      sync_new-recalled H cfg ctx kind item text dest content_type item.text w

  sync_new-recalled_bin :
      (item : Item) (dest content_type : Text) (w : World H)
      → sync_new H cfg ctx kind bin_entries
          (recalled item).binary
          dest
          (recalled item)
          content_type
          true
          w
        ≡ sync_new H cfg ctx kind bin_entries item.binary dest item content_type true w
  unfolding from_item to_removal_item
  sync_new-recalled_bin item dest content_type w =
      sync_new-recalled H cfg ctx kind item bin dest content_type item.binary w

  is_none-text : (item : Item) → is_none (recalled item).text ≡ is_none item.text
  unfolding from_item to_removal_item
  is_none-text item = is_none-map _ _ ∙ is_none-map _ item.text

  is_none-binary : (item : Item) → is_none (recalled item).binary ≡ is_none item.binary
  unfolding from_item to_removal_item
  is_none-binary item = is_none-map _ _ ∙ is_none-map _ item.binary

  when_some-text :
      (item : Item) (msg : Text) (w : World H)
      → when_some H cfg ctx kind (recalled item).text msg w
        ≡ when_some H cfg ctx kind item.text msg w
  unfolding from_item to_removal_item
  when_some-text item msg w = when_some-map _ _ msg w ∙ when_some-map _ item.text msg w

  when_some-binary :
      (item : Item) (msg : Text) (w : World H)
      → when_some H cfg ctx kind (recalled item).binary msg w
        ≡ when_some H cfg ctx kind item.binary msg w
  unfolding from_item to_removal_item
  when_some-binary item msg w = when_some-map _ _ msg w ∙ when_some-map _ item.binary msg w

  ruleset recalled_laws = (
    sync_old-removed, sync_new-recalled_text, sync_new-recalled_bin, is_none-text, is_none-binary,
    when_some-text, when_some-binary,
  )

  process_kind-recalled :
      (k : Kind) (item o₁ o₂ : Item) (dest old_dest : Text) (w : World H)
      → process_kind H cfg ctx kind k (recalled item) o₁ dest old_dest true w
        ≡ process_kind H cfg ctx kind k item o₂ dest old_dest true w
  unfolding process_kind
  process_kind-recalled config_map item o₁ o₂ dest old_dest w = simp recalled_laws
  process_kind-recalled secret item o₁ o₂ dest old_dest w = simp recalled_laws

  -- Removing a resource in its cached form does exactly what removing the resource itself does:
  -- the same world, with its files, requests, log lines and maps, and the same answer.
  pub process_resource-recalled :
      (item : Item) (dest_folder : Option Text) (w : World H)
      → process_resource H cfg ctx kind (recalled item) dest_folder true w
        ≡ process_resource H cfg ctx kind item dest_folder true w
  unfolding process_resource remember from_item to_removal_item old_dest_of key
  process_resource-recalled item dest_folder w = process_kind-recalled kind item _ _ _ _ _
