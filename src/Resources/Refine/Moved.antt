-- ===== src/Resources/Refine/Moved.antt =====
-- src/resources.rs, process_resource: a key that moves between the two sections of a config map.
use k8s_sidecar_rs.Base.{
  Text, Bytes, false, Option, none, some, ◌≡◌, refl, ◌∙◌, ap, subst, arith, nat_eq, list_eq, List,
  [], ◌∷◌, inl, inr, beq_refl,
}
use k8s_sidecar_rs.Base.Dict
use k8s_sidecar_rs.Base.Dict.{Dict, In, In-get}
use k8s_sidecar_rs.Kubeapi.Items.{config_map, Item}
use k8s_sidecar_rs.Host.World.{Host, World}
use k8s_sidecar_rs.Host.Disk.{DiskLaws}
use k8s_sidecar_rs.Host.Smooth.{Smooth}
use k8s_sidecar_rs.Http.Auth.{HttpCfg}
use k8s_sidecar_rs.Resources.Update.{Ctx, Content, bin, bin_entries}
use k8s_sidecar_rs.Resources.Process.{in_new, process_resource, old_item_of, old_dest_of}
use k8s_sidecar_rs.Resources.Refine.Store.{Store, take_out}
use k8s_sidecar_rs.Resources.Refine.Keys.{take_out_all}
use k8s_sidecar_rs.Resources.Refine.Sync.{
  vanished, without, keys_of, without-get, sync_spec, stored, name, AreOrdinary,
  process_resource-sync_spec,
}

take_out_all-gone :
    (file : Text → Text) (entries : List (Text × Content)) (s : Store) (f : Text)
    → s f ≡ none
    → take_out_all file entries s f ≡ none
unfolding take_out_all
take_out_all-gone file [] s f h = h
take_out_all-gone file ((k, c) ∷ entries) s f h = take_out_all-gone file entries _ f (ground arith)

take_out_all-In :
    (file : Text → Text) (entries : List (Text × Content)) (s : Store) (k : Text) (c : Content)
    → In (k, c) entries
    → take_out_all file entries s (file k) ≡ none
unfolding take_out_all
take_out_all-In file [] s k c i = absurd i
take_out_all-In file ((j, b) ∷ entries) s k c (inl same) =
    take_out_all-gone file entries _ (file k) (
      subst (λ (x : Text × Content). take_out (file x.0) s (file k) ≡ none) same
        (rw (beq_refl (file k)) refl))
take_out_all-In file ((j, b) ∷ entries) s k c (inr later) = take_out_all-In file entries _ k c later

In-bin_entries :
    (m : Dict Text Bytes) (k : Text) (v : Bytes) → In (k, v) m → In (k, bin v) (bin_entries m)
In-bin_entries [] k v i = i
In-bin_entries ((j, u) ∷ m) k v (inl same) = inl (ap (λ (x : Text × Bytes). (x.0, bin x.1)) same)
In-bin_entries ((j, u) ∷ m) k v (inr later) = inr (In-bin_entries m k v later)

vanished-In :
    (old : Option (Dict Text Bytes)) (new : Option (Dict Text Bytes)) (m : Dict Text Bytes)
    (k : Text) (v : Bytes)
    → old ≡ some m
    → Dict.get m k ≡ some v
    → in_new new k ≡ false
    → In (k, bin v) (vanished bin_entries old new)
vanished-In old new m k v e there gone = rw e (
    In-bin_entries (without m (keys_of new)) k v
      (In-get (without m (keys_of new)) k (without-get m new k ∙ rw gone there)))

module _ (H : Host) (L : DiskLaws H.files) (folder : Text) (Plain : Text → Type 0)
    (smooth : Smooth H L folder Plain) (cfg : HttpCfg H.F64) (ctx : Ctx H.Json) where
  -- In a folder where nothing goes wrong, a config map that stays in it, all whose keys are ordinary,
  -- with a key that the cached item has in `binaryData` and the new one has in `data` and not in
  -- `binaryData`: afterwards there is no file under the key's name, although the new item has a value
  -- for the key.
  pub process_resource-moved_key :
      (item : Item) (w : World H) (binary : Dict Text Bytes) (texts : Dict Text Text) (k : Text)
      (v : Bytes) (t : Text)
      → old_dest_of w.maps config_map item (some folder) ≡ folder
      → AreOrdinary H L folder Plain smooth cfg ctx config_map item
          (old_item_of w.maps config_map item)
      → (old_item_of w.maps config_map item).binary ≡ some binary
      → Dict.get binary k ≡ some v
      → item.text ≡ some texts
      → Dict.get texts k ≡ some t
      → in_new item.binary k ≡ false
      → Plain
          (name H L folder Plain smooth cfg ctx config_map (old_item_of w.maps config_map item) k)
      → stored H L folder Plain smooth cfg ctx config_map
          (process_resource H cfg ctx config_map item (some folder) false w).1
          (name H L folder Plain smooth cfg ctx config_map (old_item_of w.maps config_map item) k)
        ≡ none
  unfolding sync_spec
  process_resource-moved_key item w binary texts k v t stays o old there new here gone p =
      let before = old_item_of w.maps config_map item in
      let file = name H L folder Plain smooth cfg ctx config_map before in
      process_resource-sync_spec H L folder Plain smooth cfg ctx config_map item w stays o (file k)
        p
      ∙ take_out_all-In file (vanished bin_entries before.binary item.binary) _ k (bin v)
          (vanished-In before.binary item.binary binary k v old there gone)
