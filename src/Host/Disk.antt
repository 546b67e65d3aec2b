-- ===== src/Host/Disk.antt =====
-- Documented behaviour of std::fs, as the laws that theorems about files take. `content` is what a
-- file holds whether or not the process may read it, and `SameFile` says that two paths lead to one
-- file.
use k8s_sidecar_rs.Base.{Text, Bytes, ℕ, true, Option, none, some, ok, err, ◌≡◌}
use k8s_sidecar_rs.Host.World.{FileSystem, IoError}

pub record DiskLaws (F : FileSystem) : Type 1 where
  pub SameFile : Text → Text → Type 0
  pub content : F.Disk → Text → Option Bytes
  pub content-read : (d : F.Disk) (p : Text) (b : Bytes) → F.read d p ≡ ok b → content d p ≡ some b
  pub exists-read : (d : F.Disk) (p : Text) (b : Bytes) → F.read d p ≡ ok b → F.exists d p ≡ true
  -- A write that succeeds replaces the content. One that fails may leave anything there.
  pub content-write :
      (d : F.Disk) (p : Text) (b : Bytes)
      → (F.write d p b).0 ≡ ok tt
      → content (F.write d p b).1 p ≡ some b
  pub content-write_ne :
      (d : F.Disk) (p q : Text) (b : Bytes)
      → ¬ SameFile p q
      → content (F.write d p b).1 q ≡ content d q
  -- Making directories and chmod change no content.
  pub content-create_dir_all :
      (d : F.Disk) (p q : Text) → content (F.create_dir_all d p).1 q ≡ content d q
  pub content-set_permissions :
      (d : F.Disk) (p q : Text) (m : ℕ) → content (F.set_permissions d p m).1 q ≡ content d q
  -- A removal that succeeds leaves no file there. One that fails changes nothing.
  pub content-remove_file :
      (d : F.Disk) (p : Text)
      → (F.remove_file d p).0 ≡ ok tt
      → content (F.remove_file d p).1 p ≡ none
  pub content-remove_file_ne :
      (d : F.Disk) (p q : Text) → ¬ SameFile p q → content (F.remove_file d p).1 q ≡ content d q
  pub remove_file_failed :
      (d : F.Disk) (p : Text) (e : IoError)
      → (F.remove_file d p).0 ≡ err e
      → (F.remove_file d p).1 ≡ d
