-- ===== src/Host/Smooth.antt =====
-- A folder in which nothing goes wrong: the setting in which a sync is compared with what it is meant
-- to do. `Plain` picks the file names, and no two of them lead to one file.
use k8s_sidecar_rs.Base.{Text, Bytes, true, false, none, ok, ◌≡◌, ◌≢◌}
use k8s_sidecar_rs.Host.World.{Host}
use k8s_sidecar_rs.Host.Disk.{DiskLaws}
use k8s_sidecar_rs.Files.{join, default_file_mode}

pub record Smooth (H : Host) (L : DiskLaws H.files) (folder : Text) (Plain : Text → Type 0)
    : Type 0 where
  pub apart :
      (f g : Text) → Plain f → Plain g → f ≢ g → ¬ L.SameFile (join folder f) (join folder g)
  pub mkdir_ok : (d : H.Disk) → (H.create_dir_all d folder).0 ≡ ok tt
  pub present :
      (d : H.Disk) (f : Text)
      → Plain f
      → H.exists d (join folder f) ≡ true
      → (b : Bytes) × (H.read d (join folder f) ≡ ok b)
  pub write_ok :
      (d : H.Disk) (f : Text) (b : Bytes) → Plain f → (H.write d (join folder f) b).0 ≡ ok tt
  pub absent :
      (d : H.Disk) (f : Text)
      → Plain f
      → H.is_file d (join folder f) ≡ false
      → L.content d (join folder f) ≡ none
  pub remove_ok :
      (d : H.Disk) (f : Text)
      → Plain f
      → H.is_file d (join folder f) ≡ true
      → (H.remove_file d (join folder f)).0 ≡ ok tt
  pub no_mode : default_file_mode H ≡ none
