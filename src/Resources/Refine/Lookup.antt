-- ===== src/Resources/Refine/Lookup.antt =====
-- src/resources.rs, process_resource: what a sync leaves under the file name of each key, in terms of
-- lookups in the new and in the old item.
use k8s_sidecar_rs.Base.{
  Text, Bytes, ascii, true, false, Option, none, some, ◌≡◌, refl, ◌∙◌, ap, subst, ◌==◌, nat_eq,
  list_eq, List, [], ◌∷◌, map, inl, inr, if◌then◌else◌, beq_refl, beq→eq, beq→ne, Bool-cases,
  Option-cases,
}
use k8s_sidecar_rs.Base.Dict
use k8s_sidecar_rs.Base.Dict.{Dict}
use k8s_sidecar_rs.Kubeapi.Items.{Kind, config_map, secret, Item, as_str}
use k8s_sidecar_rs.Host.World.{Host, World}
use k8s_sidecar_rs.Host.Disk.{DiskLaws}
use k8s_sidecar_rs.Host.Smooth.{Smooth}
use k8s_sidecar_rs.Files.{unique_filename}
use k8s_sidecar_rs.Files.Names.{append-cancel}
use k8s_sidecar_rs.Http.Auth.{HttpCfg}
use k8s_sidecar_rs.Resources.Update.{Ctx, Content, text, bin, raw_bytes, final_name}
use k8s_sidecar_rs.Resources.Process.{in_new, process_resource, old_item_of, old_dest_of}
use k8s_sidecar_rs.Resources.Refine.Store.{Store}
use k8s_sidecar_rs.Resources.Refine.Keys.{put_all, take_out_all}
use k8s_sidecar_rs.Resources.Refine.Sync.{
  present, vanished, without, keys_of, without-get, sync_spec, stored, name, AreOrdinary,
  process_resource-sync_spec,
}

-- A section without a key twice, as a BTreeMap is.
abbrev pub Distinct : {V : Type 0} → Dict Text V → Type 0
Distinct [] = Unit
Distinct ((k, v) ∷ m) = (Dict.get m k ≡ none) × Distinct m

abbrev pub DistinctKeys : {V : Type 0} → Option (Dict Text V) → Type 0
DistinctKeys none = Unit
DistinctKeys (some m) = Distinct m

abbrev pub value_of : {V : Type 0} → Option (Dict Text V) → Text → Option V
value_of none k = none
value_of (some m) k = Dict.get m k

-- One section's rule for a key: a new value is written, a value that only the old item has is
-- removed, and without either the file stays as it was.
abbrev pub updated : (Bytes → Bytes) → Option Bytes → Option Bytes → Option Bytes → Option Bytes
updated digest (some v) old before = some (digest v)
updated digest none (some u) before = none
updated digest none none before = before

updated_gone : (digest : Bytes → Bytes) (old : Option Bytes) → updated digest none old none ≡ none
updated_gone digest none = refl
updated_gone digest (some u) = refl

abbrev entries : (Bytes → Content) → Dict Text Bytes → List (Text × Content)
entries con = map (λ (e : Text × Bytes). (e.0, con e.1))

module _ (con : Bytes → Content) (raw : (v : Bytes) → raw_bytes (con v) ≡ v)
    (digest : Bytes → Bytes) (file : Text → Text)
    (inj : (j k : Text) → file j ≡ file k → j ≡ k) where
  differ-file : (j k : Text) → (j == k) ≡ false → (file j == file k) ≡ false
  differ-file j k h = elim (Bool-cases (file j == file k)) [
    | inl same ↦ absurd (beq→ne j k h (inj j k (beq→eq (file j) (file k) same)))
    | inr differ ↦ differ
  ]

  put_all-get :
      (m : Dict Text Bytes) (s : Store) (k : Text)
      → Distinct m
      → put_all file digest (entries con m) s (file k)
        ≡ updated digest (Dict.get m k) none (s (file k))
  unfolding put_all Dict.get
  put_all-get [] s k d = refl
  put_all-get ((j, u) ∷ m) s k d = elim (Bool-cases (j == k)) [
    | inl same ↦
        put_all-get m _ k d.1
        ∙ rw
            (
              same,
              subst (λ i. Dict.get m i ≡ none) (beq→eq j k same) d.0,
              subst (λ i. (file j == file i) ≡ true) (beq→eq j k same) (beq_refl (file j)),
              raw u,
            )
            refl
    | inr differ ↦ put_all-get m _ k d.1 ∙ rw (differ, differ-file j k differ) refl
  ]

  take_out_all-get :
      (m : Dict Text Bytes) (s : Store) (k : Text)
      → take_out_all file (entries con m) s (file k)
        ≡ updated digest none (Dict.get m k) (s (file k))
  unfolding take_out_all Dict.get
  take_out_all-get [] s k = refl
  take_out_all-get ((j, u) ∷ m) s k = elim (Bool-cases (j == k)) [
    | inl same ↦
        take_out_all-get m _ k
        ∙ rw (same, subst (λ i. (file j == file i) ≡ true) (beq→eq j k same) (beq_refl (file j)))
            (updated_gone digest (Dict.get m k))
    | inr differ ↦ take_out_all-get m _ k ∙ rw (differ, differ-file j k differ) refl
  ]

  present-get :
      (new : Option (Dict Text Bytes)) (s : Store) (k : Text)
      → DistinctKeys new
      → put_all file digest (present (entries con) new) s (file k)
        ≡ updated digest (value_of new k) none (s (file k))
  present-get none s k d = unfold put_all in refl
  present-get (some m) s k d = put_all-get m s k d

  -- An old value counts only where there is no new one.
  updated-in_new :
      (new : Option (Dict Text Bytes)) (k : Text) (old before : Option Bytes)
      → updated digest none
          (if in_new new k then none else old)
          (updated digest (value_of new k) none before)
        ≡ updated digest (value_of new k) old before
  unfolding Dict.contains_key
  updated-in_new none k old before = refl
  updated-in_new (some m) k old before = elim (Option-cases (Dict.get m k)) [
    | inl missing ↦ rw missing refl
    | inr (v, there) ↦ rw there refl
  ]

  -- A section, written and then cleaned.
  section-get :
      (new old : Option (Dict Text Bytes)) (s : Store) (k : Text)
      → DistinctKeys new
      → take_out_all file
          (vanished (entries con) old new)
          (put_all file digest (present (entries con) new) s)
          (file k)
        ≡ updated digest (value_of new k) (value_of old k) (s (file k))
  section-get new none s k d = unfold take_out_all in present-get new s k d
  section-get new (some m) s k d =
      take_out_all-get (without m (keys_of new)) _ k
      ∙ ap (λ o. updated digest none o (put_all file digest (present (entries con) new) s (file k)))
          (without-get m new k)
      ∙ ap (updated digest none (if in_new new k then none else Dict.get m k))
          (present-get new s k d)
      ∙ updated-in_new new k (Dict.get m k) (s (file k))

module _ (H : Host) (L : DiskLaws H.files) (folder : Text) (Plain : Text → Type 0)
    (smooth : Smooth H L folder Plain) (cfg : HttpCfg H.F64) (ctx : Ctx H.Json) where
  -- Different keys of an item are kept in different files.
  pub final_name-injective :
      (item : Item) (kind : Kind) (f g : Text)
      → final_name H cfg ctx item kind f ≡ final_name H cfg ctx item kind g
      → f ≡ g
  unfolding final_name unique_filename
  final_name-injective item kind f g e = elim (Bool-cases ctx.unique_filenames) [
    | inr plain ↦ rw plain at e
    | inl unique ↦
        let e' = rw unique at e in
        append-cancel (b'.' ∷ []) f g (
          append-cancel item.name _ _ (
            append-cancel (b'_' ∷ []) _ _ (
              append-cancel (as_str kind) _ _ (
                append-cancel (b'.' ∷ []) _ _
                  (append-cancel item.namespace _ _ (append-cancel (ascii "namespace_") _ _ e'))))))
  ]

  -- What is to stand under the file name of a key, by what the item and the old one have for it and by
  -- what stood there before.
  abbrev pub wanted : Kind → Item → Item → Text → Option Bytes → Option Bytes
  wanted config_map item old k before =
      updated H.sha256 (value_of item.binary k) (value_of old.binary k)
        (updated H.sha256 (value_of item.text k) (value_of old.text k) before)
  wanted secret item old k before =
      updated H.sha256 (value_of item.binary k) (value_of old.binary k) before

  sync_spec-wanted :
      (kind : Kind) (item old : Item) (s : Store) (file : Text → Text) (k : Text)
      → ((i j : Text) → file i ≡ file j → i ≡ j)
      → DistinctKeys item.text
      → DistinctKeys item.binary
      → sync_spec kind item old file file H.sha256 s (file k) ≡ wanted kind item old k (s (file k))
  unfolding sync_spec
  sync_spec-wanted config_map item old s file k inj dt db =
      section-get bin (λ v. refl) H.sha256 file inj item.binary old.binary _ k db
      ∙ ap (updated H.sha256 (value_of item.binary k) (value_of old.binary k))
          (section-get text (λ v. refl) H.sha256 file inj item.text old.text s k dt)
  sync_spec-wanted secret item old s file k inj dt db =
      section-get bin (λ v. refl) H.sha256 file inj item.binary old.binary s k db

  same_name :
      (kind : Kind) (item old : Item)
      → old.namespace ≡ item.namespace
      → old.name ≡ item.name
      → name H L folder Plain smooth cfg ctx kind old
        ≡ name H L folder Plain smooth cfg ctx kind item
  unfolding final_name
  same_name kind item old e f = rw (e, f) refl

  -- In a folder where nothing goes wrong, an item that stays in it and has the name and the namespace
  -- of the cached one, all whose keys are ordinary, and no key twice in one section: what stands under
  -- the file name of a key afterwards is decided by looking the key up. Section by section, first
  -- `data` and then `binaryData`, a value of the item is written, a key that only the cached item has
  -- is taken out, and under any other key the file is as before.
  pub process_resource-wanted :
      (kind : Kind) (item : Item) (w : World H) (k : Text)
      → old_dest_of w.maps kind item (some folder) ≡ folder
      → AreOrdinary H L folder Plain smooth cfg ctx kind item (old_item_of w.maps kind item)
      → (old_item_of w.maps kind item).namespace ≡ item.namespace
      → (old_item_of w.maps kind item).name ≡ item.name
      → DistinctKeys item.text
      → DistinctKeys item.binary
      → Plain (name H L folder Plain smooth cfg ctx kind item k)
      → stored H L folder Plain smooth cfg ctx kind
          (process_resource H cfg ctx kind item (some folder) false w).1
          (name H L folder Plain smooth cfg ctx kind item k)
        ≡ wanted kind item (old_item_of w.maps kind item) k (
            stored H L folder Plain smooth cfg ctx kind w
              (name H L folder Plain smooth cfg ctx kind item k))
  process_resource-wanted kind item w k stays o same_ns same_n dt db p =
      let old = old_item_of w.maps kind item in
      let file = name H L folder Plain smooth cfg ctx kind item in
      process_resource-sync_spec H L folder Plain smooth cfg ctx kind item w stays o (file k) p
      ∙ ap
          (λ old_file.
            sync_spec kind item old file old_file H.sha256
              (stored H L folder Plain smooth cfg ctx kind w) (file k))
          (same_name kind item old same_ns same_n)
      ∙ sync_spec-wanted kind item old _ file k (final_name-injective item kind) dt db
