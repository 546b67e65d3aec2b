-- ===== src/Resources/Frame.antt =====
-- src/resources.rs: what the file operations of a sync leave alone. The maps change only under the
-- lock at the start of `process_resource`.
use k8s_sidecar_rs.Base.{
  Text, Bytes, Bool, true, false, ◌||◌, Option, none, some, List, [], ◌∷◌, Result, ok, err, ◌≡◌,
  refl, ◌∙◌, ap, arith,
}
use k8s_sidecar_rs.Base.Str.{strip_suffix}
use k8s_sidecar_rs.Base.Dict.{Dict}
use k8s_sidecar_rs.Kubeapi.Items.{Kind, config_map, secret, Item}
use k8s_sidecar_rs.Host.World.{Host, World}
use k8s_sidecar_rs.Host.Io.{Act, continue, continue-keeps}
use k8s_sidecar_rs.Http.Auth.{HttpCfg}
use k8s_sidecar_rs.Http.Frame.{local-request}
use k8s_sidecar_rs.Files.Frame.{shared-write_data_to_file, shared-remove_file}
use k8s_sidecar_rs.Resources.Cache.{Maps, url_suffix}
use k8s_sidecar_rs.Resources.Update.{
  Ctx, Content, text_entries, bin_entries, fetch, file_data, url_of, final_name, store, settle,
  update_file, iterate_from, iterate_data,
}
use k8s_sidecar_rs.Resources.Process.{
  sync_new, sync_old, leftovers, process_kind, process_resource, remember, when_some,
}
use k8s_sidecar_rs.Health.Status.{Health}

module _ (H : Host) (cfg : HttpCfg H.F64) where
  abbrev pub Kept : Type 0
  Kept = Maps × Health

  abbrev pub kept : World H → Kept
  kept w = (w.maps, w.health)

  kept-fetch :
      (ctx : Ctx H.Json) (filename : Text) (url : Result Text Text) (w : World H)
      → kept (fetch H cfg ctx filename url w).1 ≡ kept w
  kept-fetch ctx filename (err e) w = refl
  kept-fetch ctx filename (ok url) w =
      ap (λ l. (l.1, l.2)) (local-request H cfg (some url) _ ctx.enable_5xx none w)

  kept-file_data :
      (ctx : Ctx H.Json) (data_key : Text) (content : Content) (stripped : Option Text)
      (w : World H)
      → kept (file_data H cfg ctx data_key content stripped w).1 ≡ kept w
  unfolding file_data
  kept-file_data ctx data_key content none w = refl
  kept-file_data ctx data_key content (some stripped) w = kept-fetch ctx stripped (url_of content) w

  kept-store :
      (dest_folder filename : Text) (contents : Bytes) (content_type : Text) (remove : Bool)
      (w : World H)
      → kept (store H cfg dest_folder filename contents content_type remove w).1 ≡ kept w
  unfolding store
  kept-store dest_folder filename contents content_type true w =
      ap (λ s. (s.0, s.1)) (shared-remove_file H dest_folder filename w)
  kept-store dest_folder filename contents content_type false w =
      ap (λ s. (s.0, s.1))
        (shared-write_data_to_file H dest_folder filename contents content_type w)

  kept-settle :
      (data_key dest_folder : Text) (r : Result Bool Text) (w : World H)
      → kept (settle H cfg data_key dest_folder r w).1 ≡ kept w
  kept-settle data_key dest_folder (ok changed) w = refl
  kept-settle data_key dest_folder (err e) w = refl

  pub kept-update_file :
      (data_key : Text) (content : Content) (dest_folder : Text) (item : Item) (kind : Kind)
      (ctx : Ctx H.Json) (content_type : Text) (remove : Bool) (w : World H)
      → kept (update_file H cfg data_key content dest_folder item kind ctx content_type remove w).1
        ≡ kept w
  unfolding update_file
  kept-update_file data_key content dest_folder item kind ctx content_type remove w =
      let found = strip_suffix data_key url_suffix in
      let start = file_data H cfg ctx data_key content found w in
      let go : Text × Bytes → Act H Text Bool =
        λ f. store H cfg dest_folder (final_name H cfg ctx item kind f.0) f.1 content_type remove in
      let mid = continue start.0 go start.1 in
      let before = kept-file_data ctx data_key content found w in
      kept-settle data_key dest_folder mid.0 mid.1
      ∙ continue-keeps (λ v. kept v ≡ kept w) start.0 go start.1 before
          (λ f.
            kept-store dest_folder (final_name H cfg ctx item kind f.0) f.1 content_type remove
              start.1
            ∙ before)

  pub kept-iterate_from :
      (changed : Bool) (entries : List (Text × Content)) (dest_folder : Text) (item : Item)
      (kind : Kind) (ctx : Ctx H.Json) (content_type : Text) (remove : Bool) (w : World H)
      → kept (iterate_from H cfg changed entries dest_folder item kind ctx content_type remove w).1
        ≡ kept w
  unfolding iterate_from
  kept-iterate_from changed [] dest_folder item kind ctx content_type remove w = refl
  kept-iterate_from changed ((k, c) ∷ entries) dest_folder item kind ctx content_type remove w =
      let b = (update_file H cfg k c dest_folder item kind ctx content_type remove w).0 in
      kept-iterate_from (changed || b) entries dest_folder item kind ctx content_type remove _
      ∙ kept-update_file k c dest_folder item kind ctx content_type remove w

module _ (H : Host) (cfg : HttpCfg H.F64) (ctx : Ctx H.Json) (kind : Kind) where
  kept-sync_new :
      {V : Type 0} (entries : Dict Text V → List (Text × Content)) (values : Option (Dict Text V))
      (dest : Text) (item : Item) (content_type : Text) (is_removed : Bool) (w : World H)
      → kept H cfg (sync_new H cfg ctx kind entries values dest item content_type is_removed w).1
        ≡ kept H cfg w
  unfolding sync_new iterate_data
  kept-sync_new entries none dest item content_type is_removed w = refl
  kept-sync_new entries (some values) dest item content_type is_removed w =
      kept-iterate_from H cfg false (entries values) dest item kind ctx content_type is_removed w

  kept-sync_old :
      {V W : Type 0} (entries : Dict Text V → List (Text × Content)) (old : Option (Dict Text V))
      (new : Option (Dict Text W)) (old_dest dest : Text) (old_item : Item) (content_type : Text)
      (is_removed : Bool) (w : World H)
      → kept H cfg
          (sync_old H cfg ctx kind entries old new old_dest dest old_item content_type is_removed
            w).1
        ≡ kept H cfg w
  unfolding sync_old iterate_data
  kept-sync_old entries none new old_dest dest old_item content_type is_removed w = refl
  kept-sync_old entries (some old) new old_dest dest old_item content_type true w = refl
  kept-sync_old entries (some old) new old_dest dest old_item content_type false w =
      kept-iterate_from H cfg false (entries (leftovers H cfg ctx kind old new old_dest dest))
        old_dest old_item kind ctx content_type true w

  kept-when_some :
      {V : Type 0} (values : Option (Dict Text V)) (msg : Text) (w : World H)
      → kept H cfg (when_some H cfg ctx kind values msg w).1 ≡ kept H cfg w
  kept-when_some none msg w = refl
  kept-when_some (some values) msg w = refl

  kept-process_kind :
      (k : Kind) (item old_item : Item) (dest old_dest : Text) (is_removed : Bool) (w : World H)
      → kept H cfg (process_kind H cfg ctx kind k item old_item dest old_dest is_removed w).1
        ≡ kept H cfg w
  unfolding process_kind
  kept-process_kind config_map item old_item dest old_dest is_removed w =
      kept-sync_old bin_entries old_item.binary item.binary old_dest dest old_item _ is_removed _
      ∙ kept-sync_new bin_entries item.binary dest item _ is_removed _
      ∙ kept-when_some item.binary _ _
      ∙ kept-sync_old text_entries old_item.text item.text old_dest dest old_item _ is_removed _
      ∙ kept-sync_new text_entries item.text dest item _ is_removed _
      ∙ kept-when_some item.text _ _
      ∙ ground arith
  kept-process_kind secret item old_item dest old_dest is_removed w =
      kept-sync_old bin_entries old_item.binary item.binary old_dest dest old_item _ is_removed _
      ∙ kept-sync_new bin_entries item.binary dest item _ is_removed _
      ∙ ground arith

  -- After `process_resource` the maps are those that its part under the lock made of them, and the
  -- health state is as it was: the file operations that follow change neither.
  pub kept-process_resource :
      (item : Item) (dest_folder : Option Text) (is_removed : Bool) (w : World H)
      → kept H cfg (process_resource H cfg ctx kind item dest_folder is_removed w).1
        ≡ (remember w.maps kind item dest_folder is_removed, w.health)
  unfolding process_resource
  kept-process_resource item dest_folder is_removed w =
      kept-process_kind kind item _ _ _ is_removed _
