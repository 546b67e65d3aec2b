-- ===== src/Files/Remove.antt =====
-- src/files.rs, remove_file: what its result says about the disk.
use k8s_sidecar_rs.Base.{
  Text, Bytes, true, false, Option, none, ◌≡◌, arith, inl, inr, Result-cases, ok,
}
use k8s_sidecar_rs.Host.World.{Host, World}
use k8s_sidecar_rs.Host.Disk.{DiskLaws}
use k8s_sidecar_rs.Files.{join, remove_file}

module _ (H : Host) (L : DiskLaws H.files) where
  abbrev at : World H → Text → Option Bytes
  at w q = L.content w.disk q

  remove_file_lem :
      (folder filename : Text) (w : World H)
      → ((remove_file H folder filename w).0 ≡ true
          → at (remove_file H folder filename w).1 (join folder filename) ≡ none)
        × ((remove_file H folder filename w).0 ≡ false
            → (remove_file H folder filename w).1.disk ≡ w.disk)
  unfolding remove_file
  remove_file_lem folder filename w =
      let path = join folder filename in
      elim (Result-cases (H.remove_file w.disk path).0) [
        | inl (u, e) ↦ ground (arith, L.content-remove_file w.disk path)
        | inr (x, e) ↦ ground (arith, L.remove_file_failed w.disk path x e)
      ]

  -- On a disk that obeys `DiskLaws`: when `remove_file` answers `true`, there is no file at the
  -- path.
  pub remove_file-true :
      (folder filename : Text) (w : World H)
      → (remove_file H folder filename w).0 ≡ true
      → at (remove_file H folder filename w).1 (join folder filename) ≡ none
  remove_file-true folder filename w = (remove_file_lem folder filename w).0

  -- On a disk that obeys `DiskLaws`: when `remove_file` answers `false`, the disk is as it was.
  pub remove_file-false :
      (folder filename : Text) (w : World H)
      → (remove_file H folder filename w).0 ≡ false
      → (remove_file H folder filename w).1.disk ≡ w.disk
  remove_file-false folder filename w = (remove_file_lem folder filename w).1

  -- A file that is there is removed, if the system allows it.
  pub remove_file-is_file :
      (folder filename : Text) (w : World H)
      → H.is_file w.disk (join folder filename) ≡ true
      → (H.remove_file w.disk (join folder filename)).0 ≡ ok tt
      → (remove_file H folder filename w).0 ≡ true
  unfolding remove_file
  remove_file-is_file folder filename w h r = ground arith

  -- On a disk that obeys `DiskLaws`: whatever the answer of `remove_file`, a path that does not
  -- lead to the file removed keeps its content.
  pub remove_file_ne :
      (folder filename : Text) (w : World H) (q : Text)
      → ¬ L.SameFile (join folder filename) q
      → at (remove_file H folder filename w).1 q ≡ at w q
  unfolding remove_file
  remove_file_ne folder filename w q h =
      ground (arith, L.content-remove_file_ne w.disk (join folder filename) q h)
