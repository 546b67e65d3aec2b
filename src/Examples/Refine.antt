-- ===== src/Examples/Refine.antt =====
-- The theorems about a sync as a whole at concrete inputs, on a disk that has files only.
use k8s_sidecar_rs.Base.{
  Text, Bytes, ascii, true, false, none, some, Option, [], ◌∷◌, ◌≡◌, ◌≢◌, ◌⊎◌, inl, inr, refl, sym,
  ◌∙◌, ok, arith, is_some, list_beq, contains, pair_eq, nat_eq, list_eq,
}
use k8s_sidecar_rs.Base.Dict
use k8s_sidecar_rs.Host.World.{FileSystem, Host, World}
use k8s_sidecar_rs.Host.Disk.{DiskLaws}
use k8s_sidecar_rs.Host.Smooth.{Smooth}
use k8s_sidecar_rs.Host.Memory.{
  MemoryDisk, memory_files, host, read_entry, remove_entry, content-read, content-write,
  content-write_ne, content-remove, content-remove_ne, remove_entry_failed, quiet,
}
use k8s_sidecar_rs.Files.{join, default_file_mode}
use k8s_sidecar_rs.Base.Str.{starts_with, ends_with, strip_suffix}
use k8s_sidecar_rs.Kubeapi.Items.{config_map, kind_eq, Item}
use k8s_sidecar_rs.Health.Status
use k8s_sidecar_rs.Kubeapi.Items
use k8s_sidecar_rs.Resources.Cache.{CachedItem, to_removal_item, url_suffix}
use k8s_sidecar_rs.Resources.Update.{final_name}
use k8s_sidecar_rs.Resources.Process.{process_resource, old_dest_of, old_item_of}
use k8s_sidecar_rs.Resources.Refine.Sync.{
  AreOrdinary, stored, name, without, sync_spec, process_resource-sync_spec,
}
use k8s_sidecar_rs.Resources.Refine.Moved.{process_resource-moved_key}
use k8s_sidecar_rs.Resources.Refine.Lookup.{wanted, process_resource-wanted}
use k8s_sidecar_rs.Examples.Data.{texts_differ, item, cfg, ctx}

abbrev flat_files : FileSystem
flat_files = record memory_files { exists = λ d p. Dict.contains_key d.entries p }

abbrev flat : Host
flat = record host { files = flat_files }

present-read : (o : Option Bytes) → is_some o ≡ true → (b : Bytes) × (read_entry o ≡ ok b)
present-read none h = cc
present-read (some b) h = (b, refl)

flat-exists-read :
    (d : MemoryDisk) (p : Text) (b : Bytes)
    → read_entry (Dict.get d.entries p) ≡ ok b
    → Dict.contains_key d.entries p ≡ true
unfolding Dict.contains_key
flat-exists-read d p b h = ground (arith, content-read (Dict.get d.entries p) b)

abbrev flat_laws : DiskLaws flat_files
flat_laws = record {
  SameFile = λ p q. p ≡ q;
  content = λ d p. Dict.get d.entries p;
  content-read = λ d p b. content-read (Dict.get d.entries p) b;
  exists-read = flat-exists-read;
  content-write = λ d p b h. content-write d.entries p b;
  content-write_ne = λ d p q b ne. content-write_ne d.entries p q b ne;
  content-create_dir_all = λ d p q. refl;
  content-set_permissions = λ d p q m. refl;
  content-remove_file = λ d p. content-remove d p (Dict.get d.entries p) refl;
  content-remove_file_ne = λ d p q ne. content-remove_ne d p q (Dict.get d.entries p) ne;
  remove_file_failed = λ d p e. remove_entry_failed d p (Dict.get d.entries p) e;
}

abbrev folder : Text
folder = ascii "/data"

-- Two file names of the folder.
abbrev Plain : Text → Type 0
Plain f = (f ≡ ascii "f") ⊎ (f ≡ ascii "g")

apart : (f g : Text) → Plain f → Plain g → f ≢ g → join folder f ≢ join folder g
unfolding join starts_with ends_with strip_suffix list_beq
apart f g (inl e) (inl h) ne s = ne (e ∙ sym h)
apart f g (inr e) (inr h) ne s = ne (e ∙ sym h)
apart f g (inl e) (inr h) ne s =
    texts_differ (ascii "/data/f") (ascii "/data/g") refl (rw (e, h) at s)
apart f g (inr e) (inl h) ne s =
    texts_differ (ascii "/data/g") (ascii "/data/f") refl (rw (e, h) at s)

missing-content :
    (d : MemoryDisk) (p : Text)
    → Dict.contains_key d.entries p ≡ false
    → Dict.get d.entries p ≡ none
unfolding Dict.contains_key
missing-content d p h = ground (arith)

removed-ok :
    (d : MemoryDisk) (p : Text)
    → Dict.contains_key d.entries p ≡ true
    → (remove_entry d p (Dict.get d.entries p)).0 ≡ ok tt
unfolding Dict.contains_key
removed-ok d p h = ground (arith)

no_mode : default_file_mode flat ≡ none
unfolding default_file_mode
no_mode = refl

smooth : Smooth flat flat_laws folder Plain
smooth = record {
  apart = apart;
  mkdir_ok = λ d. refl;
  present =
      λ d f p h. unfold Dict.contains_key in present-read (Dict.get d.entries (join folder f)) h;
  write_ok = λ d f b p. refl;
  absent = λ d f p h. missing-content d (join folder f) h;
  remove_ok = λ d f p h. removed-ok d (join folder f) h;
  no_mode = no_mode;
}

-- The config map whose key `f` was binary and is text now, in its folder.
abbrev binary_before : CachedItem
binary_before = record {
  namespace = ascii "n";
  name = ascii "a";
  text = none;
  binary = some ((ascii "f", none) ∷ []);
}

abbrev moved_world : World flat
moved_world = record {
  disk = record { dirs = []; entries = (ascii "/data/f", ascii "old") ∷ [] };
  net = quiet;
  maps = record {
    version = [];
    object = ((config_map, ascii "na"), binary_before) ∷ [];
    dest = ((config_map, ascii "na"), folder) ∷ [];
  };
  health = Status.initial;
  trace = [];
}

stays : old_dest_of moved_world.maps config_map item (some folder) ≡ folder
unfolding old_dest_of Items.key Dict.get list_beq
stays = refl

ordinary :
    AreOrdinary flat flat_laws folder Plain smooth cfg ctx config_map item
      (old_item_of moved_world.maps config_map item)
unfolding old_item_of Items.key Dict.get list_beq to_removal_item without contains strip_suffix
    url_suffix final_name
ordinary = record {
  text = (refl, inl refl, tt);
  bin = tt;
  old_text = tt;
  old_bin = (refl, inl refl, tt);
}

process_resource-sync_spec_example :
    stored flat flat_laws folder Plain smooth cfg ctx config_map
      (process_resource flat cfg ctx config_map item (some folder) false moved_world).1
      (ascii "f")
    ≡ sync_spec config_map item
        (old_item_of moved_world.maps config_map item)
        (name flat flat_laws folder Plain smooth cfg ctx config_map item)
        (name flat flat_laws folder Plain smooth cfg ctx config_map
          (old_item_of moved_world.maps config_map item))
        flat.sha256
        (stored flat flat_laws folder Plain smooth cfg ctx config_map moved_world)
        (ascii "f")
process_resource-sync_spec_example =
    process_resource-sync_spec flat flat_laws folder Plain smooth cfg ctx config_map item
      moved_world stays ordinary (ascii "f") (inl refl)

process_resource-moved_key_example :
    stored flat flat_laws folder Plain smooth cfg ctx config_map
      (process_resource flat cfg ctx config_map item (some folder) false moved_world).1
      (ascii "f")
    ≡ none
unfolding final_name old_item_of Items.key Dict.get list_beq to_removal_item
process_resource-moved_key_example =
    process_resource-moved_key flat flat_laws folder Plain smooth cfg ctx item moved_world
      ((ascii "f", []) ∷ []) ((ascii "f", ascii "x") ∷ []) (ascii "f") [] (ascii "x") stays ordinary
      refl refl refl refl refl (inl refl)

process_resource-wanted_example :
    stored flat flat_laws folder Plain smooth cfg ctx config_map
      (process_resource flat cfg ctx config_map item (some folder) false moved_world).1
      (name flat flat_laws folder Plain smooth cfg ctx config_map item (ascii "f"))
    ≡ wanted flat flat_laws folder Plain smooth cfg ctx config_map item
        (old_item_of moved_world.maps config_map item)
        (ascii "f")
        (stored flat flat_laws folder Plain smooth cfg ctx config_map moved_world
          (name flat flat_laws folder Plain smooth cfg ctx config_map item (ascii "f")))
unfolding final_name old_item_of Items.key Dict.get list_beq to_removal_item
process_resource-wanted_example =
    process_resource-wanted flat flat_laws folder Plain smooth cfg ctx config_map item moved_world
      (ascii "f") stays ordinary refl refl (refl, tt) tt (inl refl)
