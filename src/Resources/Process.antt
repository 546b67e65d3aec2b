-- ===== src/Resources/Process.antt =====
-- src/resources.rs: `minus_common` and `process_resource`.
use k8s_sidecar_rs.Base.{
  Text, ascii, Bool, true, false, ◌||◌, ◌&&◌, Option, none, some, List, [], ◌∷◌, ◌++◌, unwrap_or,
  or_else, ◌==◌, nat_eq, list_eq, pair_eq, if◌then◌else◌,
}
use k8s_sidecar_rs.Base.Dict
use k8s_sidecar_rs.Base.Dict.{Dict}
use k8s_sidecar_rs.Kubeapi.Items.{Kind, config_map, secret, kind_eq, Item, as_str}
use k8s_sidecar_rs.Kubeapi.Items
use k8s_sidecar_rs.Host.World.{Host}
use k8s_sidecar_rs.Host.Io.{Io, pure, ◌>>=◌, ◌>>◌, debug, warning}
use k8s_sidecar_rs.Files.{content_type_text, content_type_base64_binary}
use k8s_sidecar_rs.Http.Auth.{HttpCfg}
use k8s_sidecar_rs.Resources.Cache.{Maps, Key, from_item, to_removal_item}
use k8s_sidecar_rs.Resources.Update.{Ctx, Content, iterate_data, text_entries, bin_entries}

abbrev pub in_new : {W : Type 0} → Option (Dict Text W) → Text → Bool
in_new none k = false
in_new (some new) k = Dict.contains_key new k

-- The entries of `old` whose keys are not in `new`.
unfoldable pub minus_common : {V W : Type 0} → Dict Text V → Option (Dict Text W) → Dict Text V
minus_common [] new = []
minus_common ((k, v) ∷ old) new =
    let rest = minus_common old new in if in_new new k then rest else (k, v) ∷ rest

pub no_data_msg : Text → Text
no_data_msg kind = ascii "No data/binaryData field in " ++ kind

pub no_secret_data_msg : Text → Text
no_secret_data_msg kind = ascii "No data field in " ++ kind

pub found_data_msg : Text → Text
found_data_msg kind = ascii "Found 'data' on " ++ kind

pub found_binary_msg : Text → Text
found_binary_msg kind = ascii "Found 'binary_data' on " ++ kind

abbrev pub is_none : {A : Type 0} → Option A → Bool
is_none none = true
is_none (some a) = false

abbrev pub key_of : Kind → Item → Key
key_of kind item = (kind, Items.key item)

-- The part under the lock: the old item, the old folder, and the maps after it.
unfoldable pub old_item_of : Maps → Kind → Item → Item
old_item_of m kind item =
    to_removal_item (unwrap_or (Dict.get m.object (key_of kind item)) (from_item item))

unfoldable pub old_dest_of : Maps → Kind → Item → Option Text → Text
old_dest_of m kind item dest_folder =
    unwrap_or (or_else (Dict.get m.dest (key_of kind item)) dest_folder) []

unfoldable pub remember : Maps → Kind → Item → Option Text → Bool → Maps
remember m kind item dest_folder true = record m {
  object = Dict.remove m.object (key_of kind item);
}
remember m kind item dest_folder false = record m {
  object = Dict.insert m.object (key_of kind item) (from_item item);
  dest = Dict.insert m.dest (key_of kind item) (unwrap_or dest_folder []);
}

module _ (H : Host) (cfg : HttpCfg H.F64) (ctx : Ctx H.Json) (kind : Kind) where
  -- `if let Some(values) = &item.text`: the entries of the item itself.
  unfoldable pub sync_new :
      {V : Type 0}
      → (Dict Text V → List (Text × Content))
      → Option (Dict Text V)
      → Text
      → Item
      → Text
      → Bool
      → Io H Bool
  sync_new entries none dest item content_type is_removed = pure false
  sync_new entries (some values) dest item content_type is_removed =
      iterate_data H cfg (entries values) dest item kind ctx content_type is_removed

  -- Leftovers of the old item: the vanished keys, or every key if the folder has moved.
  unfoldable pub leftovers :
      {V W : Type 0} → Dict Text V → Option (Dict Text W) → Text → Text → Dict Text V
  leftovers old new old_dest dest = if old_dest == dest then minus_common old new else old

  unfoldable pub sync_old :
      {V W : Type 0}
      → (Dict Text V → List (Text × Content))
      → Option (Dict Text V)
      → Option (Dict Text W)
      → Text
      → Text
      → Item
      → Text
      → Bool
      → Io H Bool
  sync_old entries none new old_dest dest old_item content_type is_removed = pure false
  sync_old entries (some old) new old_dest dest old_item content_type true = pure false
  sync_old entries (some old) new old_dest dest old_item content_type false =
      iterate_data H cfg (entries (leftovers old new old_dest dest)) old_dest old_item kind ctx
        content_type true

  abbrev pub when_some : {V : Type 0} → Option (Dict Text V) → Text → Io H Unit
  when_some none msg = pure tt
  when_some (some values) msg = debug H msg

  -- The body of `match kind`.
  unfoldable pub process_kind : Kind → Item → Item → Text → Text → Bool → Io H Bool
  process_kind config_map item old_item dest old_dest is_removed =
      (if is_none item.text && is_none item.binary
        then warning H (no_data_msg (as_str kind))
        else pure tt)
      >> when_some item.text (found_data_msg (as_str kind))
      >> sync_new text_entries item.text dest item content_type_text is_removed
      >>= λ new_text.
          sync_old text_entries old_item.text item.text old_dest dest old_item content_type_text
            is_removed
          >>= λ old_text.
              when_some item.binary (found_binary_msg (as_str kind))
              >> sync_new bin_entries item.binary dest item content_type_base64_binary is_removed
              >>= λ new_bin.
                  sync_old bin_entries old_item.binary item.binary old_dest dest old_item
                    content_type_base64_binary is_removed
                  >>= λ old_bin. pure (new_text || old_text || new_bin || old_bin)
  process_kind secret item old_item dest old_dest is_removed =
      (if is_none item.binary then warning H (no_secret_data_msg (as_str kind)) else pure tt)
      >> sync_new bin_entries item.binary dest item content_type_base64_binary is_removed
      >>= λ new_bin.
          sync_old bin_entries old_item.binary item.binary old_dest dest old_item
            content_type_base64_binary is_removed
          >>= λ old_bin. pure (new_bin || old_bin)

  unfoldable pub process_resource : Item → Option Text → Bool → Io H Bool
  process_resource item dest_folder is_removed w =
      let old_item = old_item_of w.maps kind item in
      let old_dest = old_dest_of w.maps kind item dest_folder in
      let dest = if is_removed then old_dest else unwrap_or dest_folder [] in
      process_kind kind item old_item dest old_dest is_removed
        (record w { maps = remember w.maps kind item dest_folder is_removed })
