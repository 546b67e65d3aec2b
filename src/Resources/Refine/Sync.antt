-- ===== src/Resources/Refine/Sync.antt =====
-- src/resources.rs, process_resource against the abstract store: the new keys are put, and the keys
-- that the old item has and the new one has not are taken out. The specification finds these in a list
-- of keys, and shares no code with `minus_common`.
use mathlib.Core.Option
use k8s_sidecar_rs.Base.{
  Text, Bytes, Bool, true, false, ◌&&◌, Option, none, some, ◌≡◌, refl, ◌∙◌, sym, ap, arith, is_some,
  map, contains, list_beq_iff, ◌∷◌, nat_eq, list_eq, List, [], if◌then◌else◌, beq_refl,
}
use k8s_sidecar_rs.Base.Dict
use k8s_sidecar_rs.Base.Dict.{Dict}
use k8s_sidecar_rs.Kubeapi.Items.{Kind, config_map, secret, Item, as_str}
use k8s_sidecar_rs.Host.World.{Host, World}
use k8s_sidecar_rs.Host.Disk.{DiskLaws}
use k8s_sidecar_rs.Host.Smooth.{Smooth}
use k8s_sidecar_rs.Host.Io.{Io, pure, warning}
use k8s_sidecar_rs.Files.{join, content_type_text, content_type_base64_binary}
use k8s_sidecar_rs.Http.Auth.{HttpCfg}
use k8s_sidecar_rs.Resources.Update.{Ctx, Content, text_entries, bin_entries, iterate_data}
use k8s_sidecar_rs.Resources.Process.{
  in_new, minus_common, is_none, no_data_msg, no_secret_data_msg, found_data_msg, found_binary_msg,
  leftovers, sync_new, sync_old, when_some, process_kind, process_resource, old_item_of,
  old_dest_of,
}
use k8s_sidecar_rs.Resources.Content.{minus_common-get}
use k8s_sidecar_rs.Resources.Refine.Store
use k8s_sidecar_rs.Resources.Refine.Store.{Store}
use k8s_sidecar_rs.Resources.Refine.Keys.{
  put_all, take_out_all, put_all-Agree, take_out_all-Agree, Same, name_of, Ordinary,
  iterate_from-put_all, iterate_from-take_out_all,
}

-- The entries of a section of an item, and those of an old section that the new one has not.
abbrev pub present :
    {V : Type 0}
    → (Dict Text V → List (Text × Content))
    → Option (Dict Text V)
    → List (Text × Content)
present entries none = []
present entries (some values) = entries values

-- The entries of a map whose keys are not in the list.
unfoldable pub without : {V : Type 0} → Dict Text V → List Text → Dict Text V
without [] keys = []
without ((k, v) ∷ entries) keys =
    let rest = without entries keys in if contains keys k then rest else (k, v) ∷ rest

abbrev pub keys_of : {W : Type 0} → Option (Dict Text W) → List Text
keys_of none = []
keys_of (some values) = map (λ entry. entry.0) values

abbrev pub vanished :
    {V W : Type 0}
    → (Dict Text V → List (Text × Content))
    → Option (Dict Text V)
    → Option (Dict Text W)
    → List (Text × Content)
vanished entries none new = []
vanished entries (some old) new = entries (without old (keys_of new))

contains-keys :
    {W : Type 0} (new : Dict Text W) (k : Text)
    → contains (map (λ (entry : Text × W). entry.0) new) k ≡ is_some (Dict.get new k)
unfolding contains Dict.get
contains-keys [] k = refl
contains-keys ((j, v) ∷ new) k =
    ground (arith, contains-keys new k, list_beq_iff j k, list_beq_iff k j)

in_new-keys_of :
    {W : Type 0} (new : Option (Dict Text W)) (k : Text) → in_new new k ≡ contains (keys_of new) k
unfolding contains Dict.contains_key
in_new-keys_of none k = refl
in_new-keys_of (some new) k = sym (contains-keys new k)

minus_common-without :
    {V W : Type 0} (old : Dict Text V) (new : Option (Dict Text W))
    → minus_common old new ≡ without old (keys_of new)
unfolding minus_common without
minus_common-without [] new = refl
minus_common-without ((k, v) ∷ old) new =
    rw (in_new-keys_of new k, minus_common-without old new) refl

pub without-get :
    {V W : Type 0} (old : Dict Text V) (new : Option (Dict Text W)) (k : Text)
    → Dict.get (without old (keys_of new)) k ≡ (if in_new new k then none else Dict.get old k)
without-get old new k =
    ap (λ m. Dict.get m k) (sym (minus_common-without old new)) ∙ minus_common-get old new k

-- What a sync is to do to the folder. `name` and `old_name` give the files of the new and of the old
-- item's keys.
unfoldable pub sync_spec :
    Kind → Item → Item → (Text → Text) → (Text → Text) → (Bytes → Bytes) → Store → Store
sync_spec config_map item old name old_name digest s =
    take_out_all old_name (vanished bin_entries old.binary item.binary) (
      put_all name digest (present bin_entries item.binary) (
        take_out_all old_name (vanished text_entries old.text item.text)
          (put_all name digest (present text_entries item.text) s)))
sync_spec secret item old name old_name digest s =
    take_out_all old_name (vanished bin_entries old.binary item.binary)
      (put_all name digest (present bin_entries item.binary) s)

module _ (H : Host) (L : DiskLaws H.files) (folder : Text) (Plain : Text → Type 0)
    (smooth : Smooth H L folder Plain) (cfg : HttpCfg H.F64) (ctx : Ctx H.Json) (kind : Kind) where
  abbrev pub stored : World H → Store
  stored = Store.store H L folder Plain smooth

  abbrev pub Alike : Store → Store → Type 0
  Alike = Same H L folder Plain smooth

  abbrev pub name : Item → Text → Text
  name = name_of H L folder Plain smooth cfg ctx kind

  abbrev pub Kept : Item → List (Text × Content) → Type 0
  Kept = Ordinary H L folder Plain smooth cfg ctx kind

  -- All keys in question, of the item and of the old one, are ordinary.
  pub record AreOrdinary (item old : Item) : Type 0 where
    pub text : Kept item (present text_entries item.text)
    pub bin : Kept item (present bin_entries item.binary)
    pub old_text : Kept old (vanished text_entries old.text item.text)
    pub old_bin : Kept old (vanished bin_entries old.binary item.binary)

  sync_new-put_all :
      {V : Type 0} (entries : Dict Text V → List (Text × Content)) (values : Option (Dict Text V))
      (item : Item) (content_type : Text) (w : World H) (s : Store)
      → Kept item (present entries values)
      → Alike (stored w) s
      → Alike
          (stored (sync_new H cfg ctx kind entries values folder item content_type false w).1)
          (put_all (name item) H.sha256 (present entries values) s)
  unfolding sync_new iterate_data put_all
  sync_new-put_all entries none item content_type w s o h f p = h f p
  sync_new-put_all entries (some values) item content_type w s o h f p =
      iterate_from-put_all H L folder Plain smooth cfg ctx kind item (entries values) false
        content_type w o f p
      ∙ put_all-Agree H L folder Plain smooth (name item) H.sha256 (entries values) _ _ h f p

  sync_old-take_out_all :
      {V W : Type 0} (entries : Dict Text V → List (Text × Content)) (old : Option (Dict Text V))
      (new : Option (Dict Text W)) (old_item : Item) (content_type : Text) (w : World H) (s : Store)
      → Kept old_item (vanished entries old new)
      → Alike (stored w) s
      → Alike
          (stored
            (sync_old H cfg ctx kind entries old new folder folder old_item content_type false w).1)
          (take_out_all (name old_item) (vanished entries old new) s)
  unfolding sync_old leftovers iterate_data take_out_all
  sync_old-take_out_all entries none new old_item content_type w s o h f p = h f p
  sync_old-take_out_all entries (some old) new old_item content_type w s o h f p =
      rw (beq_refl folder, minus_common-without old new)
        (iterate_from-take_out_all H L folder Plain smooth cfg ctx kind old_item
            (entries (without old (keys_of new))) false content_type w o f p
          ∙ take_out_all-Agree H L folder Plain smooth (name old_item)
              (entries (without old (keys_of new))) _ _ h f p)

  disk-when_some :
      {V : Type 0} (values : Option (Dict Text V)) (msg : Text) (w : World H)
      → (when_some H cfg ctx kind values msg w).1.disk ≡ w.disk
  disk-when_some none msg w = refl
  disk-when_some (some values) msg w = refl

  -- The warning about an item without keys.
  abbrev no_data : Bool → (Text → Text) → Io H Unit
  no_data empty msg = if empty then warning H (msg (as_str kind)) else pure tt

  disk-no_data :
      (empty : Bool) (msg : Text → Text) (w : World H) → (no_data empty msg w).1.disk ≡ w.disk
  disk-no_data true msg w = refl
  disk-no_data false msg w = refl

  Alike-at :
      (w w' : World H) (s : Store) → w'.disk ≡ w.disk → Alike (stored w) s → Alike (stored w') s
  Alike-at w w' s e h f p = ap (λ d. Option.map H.sha256 (L.content d (join folder f))) e ∙ h f p

  process_kind-sync_spec :
      (k : Kind) (item old : Item) (w : World H)
      → AreOrdinary item old
      → Alike
          (stored (process_kind H cfg ctx kind k item old folder folder false w).1)
          (sync_spec k item old (name item) (name old) H.sha256 (stored w))
  unfolding process_kind sync_spec
  process_kind-sync_spec config_map item old w o =
      let w₁ = (no_data (is_none item.text && is_none item.binary) no_data_msg w).1 in
      let w₂ = (when_some H cfg ctx kind item.text (found_data_msg (as_str kind)) w₁).1 in
      let w₃ =
        (sync_new H cfg ctx kind text_entries item.text folder item content_type_text false w₂).1 in
      let w₄ =
        (sync_old H cfg ctx kind text_entries old.text item.text folder folder old content_type_text
          false w₃).1 in
      let w₅ = (when_some H cfg ctx kind item.binary (found_binary_msg (as_str kind)) w₄).1 in
      let w₆ =
        (sync_new H cfg ctx kind bin_entries item.binary folder item content_type_base64_binary
          false w₅).1 in
      sync_old-take_out_all bin_entries old.binary item.binary old content_type_base64_binary w₆ _
        o.old_bin
        (sync_new-put_all bin_entries item.binary item content_type_base64_binary w₅ _ o.bin (
          Alike-at w₄ w₅ _ (disk-when_some item.binary _ w₄) (
            sync_old-take_out_all text_entries old.text item.text old content_type_text w₃ _
              o.old_text
              (sync_new-put_all text_entries item.text item content_type_text w₂ _ o.text (
                Alike-at w w₂ _ (disk-when_some item.text _ w₁ ∙ disk-no_data _ no_data_msg w)
                  (λ f p. refl))))))
  process_kind-sync_spec secret item old w o =
      let w₁ = (no_data (is_none item.binary) no_secret_data_msg w).1 in
      let w₂ =
        (sync_new H cfg ctx kind bin_entries item.binary folder item content_type_base64_binary
          false w₁).1 in
      sync_old-take_out_all bin_entries old.binary item.binary old content_type_base64_binary w₂ _
        o.old_bin
        (sync_new-put_all bin_entries item.binary item content_type_base64_binary w₁ _ o.bin
          (Alike-at w w₁ _ (disk-no_data (is_none item.binary) no_secret_data_msg w) (λ f p. refl)))

  -- In a folder where nothing goes wrong, an item that stays in it, all whose keys are ordinary:
  -- afterwards the folder holds, for every plain file name, what the abstract specification makes of
  -- what it held before. In each section that the kind has, the specification puts the digest of each value of the item
  -- under its file name, and then takes out the entries of the cached item whose keys are not in the
  -- list of the item's keys.
  pub process_resource-sync_spec :
      (item : Item) (w : World H)
      → old_dest_of w.maps kind item (some folder) ≡ folder
      → AreOrdinary item (old_item_of w.maps kind item)
      → Alike (stored (process_resource H cfg ctx kind item (some folder) false w).1) (
          sync_spec kind item
            (old_item_of w.maps kind item)
            (name item)
            (name (old_item_of w.maps kind item))
            H.sha256
            (stored w))
  unfolding process_resource
  process_resource-sync_spec item w stays o =
      rw stays (process_kind-sync_spec kind item (old_item_of w.maps kind item) _ o)
