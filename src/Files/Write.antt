-- ===== src/Files/Write.antt =====
-- src/files.rs, write_data_to_file: what its result says about the disk.
use k8s_sidecar_rs.Base.{
  Text, Bytes, ℕ, Bool, true, false, Option, none, some, ok, ◌≡◌, ◌≢◌, refl, sym, ◌∙◌, arith,
  nat_eq, list_eq, list_beq_iff, ap,
}
use mathlib.Core.Option.{some-injective}
use k8s_sidecar_rs.Base.Number.{parse_unsigned, u32_limit}
use k8s_sidecar_rs.Host.World.{Host, World}
use k8s_sidecar_rs.Host.Disk.{DiskLaws}
use k8s_sidecar_rs.Files.{
  join, on_mkdir_error, made, ensure_folder, is_unchanged, chmod_to, apply_mode, default_file_mode,
  write_now, written, write_in_folder, write_data_to_file,
}

module _ (H : Host) (L : DiskLaws H.files) where
  -- The content of a path in a world.
  abbrev pub at : World H → Text → Option Bytes
  at w q = L.content w.disk q

  pub content-ensure_folder :
      (folder filename : Text) (w : World H) (q : Text)
      → at (ensure_folder H folder filename w).1 q ≡ at w q
  unfolding ensure_folder made on_mkdir_error
  content-ensure_folder folder filename w q =
      ground (arith, L.content-create_dir_all w.disk folder q)

  content-is_unchanged :
      (path : Text) (contents : Bytes) (w : World H) → (is_unchanged H path contents w).1 ≡ w
  unfolding is_unchanged
  content-is_unchanged path contents w = ground arith

  content-chmod_to :
      (path : Text) (mode : Option ℕ) (w : World H) (q : Text)
      → at (chmod_to H path mode w).1 q ≡ at w q
  unfolding chmod_to
  content-chmod_to path none w q = refl
  content-chmod_to path (some mode) w q = L.content-set_permissions w.disk path q mode

  content-apply_mode :
      (path : Text) (mode : Option Text) (w : World H) (q : Text)
      → at (apply_mode H path mode w).1 q ≡ at w q
  unfolding apply_mode
  content-apply_mode path none w q = refl
  content-apply_mode path (some mode_str) w q =
      ground (arith, content-chmod_to path (parse_unsigned 8 u32_limit mode_str) w q)

  write_now_lem :
      (path : Text) (contents : Bytes) (data_type : Text) (w : World H) {b : Bool}
      → (write_now H path contents data_type w).0 ≡ ok b
      → (b ≡ true) × (at (write_now H path contents data_type w).1 path ≡ some contents)
  unfolding write_now
  write_now_lem path contents data_type w h = ground (
    arith,
    content-apply_mode path (default_file_mode H) (written H path contents data_type w) path,
    L.content-write w.disk path contents,
  )

  write_now_ne :
      (path : Text) (contents : Bytes) (data_type : Text) (w : World H) (q : Text)
      → ¬ L.SameFile path q
      → at (write_now H path contents data_type w).1 q ≡ at w q
  unfolding write_now
  write_now_ne path contents data_type w q h = ground (
    arith,
    content-apply_mode path (default_file_mode H) (written H path contents data_type w) q,
    L.content-write_ne w.disk path q contents h,
  )

  abbrev Tells : Text → Bytes → World H → World H → Bool → Type 0
  Tells path contents w w' true = at w' path ≡ some contents
  Tells path contents w w' false = (q : Text) → at w' q ≡ at w q

  write_in_folder_lem :
      (folder filename : Text) (contents : Bytes) (data_type : Text) (w : World H) (b : Bool)
      → (write_in_folder H folder filename contents data_type w).0 ≡ ok b
      → Tells
          (join folder filename)
          contents
          w
          (write_in_folder H folder filename contents data_type w).1
          b
  unfolding write_in_folder
  write_in_folder_lem folder filename contents data_type w true h = ground (
    arith,
    content-is_unchanged (join folder filename) contents w,
    write_now_lem (join folder filename) contents data_type w {b = true},
  )
  write_in_folder_lem folder filename contents data_type w false h = λ q. ground (
    arith,
    content-is_unchanged (join folder filename) contents w,
    write_now_lem (join folder filename) contents data_type w {b = false},
  )

  write_data_to_file_lem :
      (folder filename : Text) (contents : Bytes) (data_type : Text) (w : World H) (b : Bool)
      → (write_data_to_file H folder filename contents data_type w).0 ≡ ok b
      → Tells
          (join folder filename)
          contents
          w
          (write_data_to_file H folder filename contents data_type w).1
          b
  unfolding write_data_to_file
  write_data_to_file_lem folder filename contents data_type w true h =
      let w₁ = (ensure_folder H folder filename w).1 in
      ground (arith, write_in_folder_lem folder filename contents data_type w₁ true)
  write_data_to_file_lem folder filename contents data_type w false h = λ q.
      let w₁ = (ensure_folder H folder filename w).1 in
      ground (
        arith,
        content-ensure_folder folder filename w q,
        λ (e : (write_in_folder H folder filename contents data_type w₁).0 ≡ ok false).
            write_in_folder_lem folder filename contents data_type w₁ false e q,
      )

  -- On a disk that obeys `DiskLaws`: when `write_data_to_file` answers `Ok(true)`, the file holds
  -- the contents.
  pub write_data_to_file-true :
      (folder filename : Text) (contents : Bytes) (data_type : Text) (w : World H)
      → (write_data_to_file H folder filename contents data_type w).0 ≡ ok true
      → at (write_data_to_file H folder filename contents data_type w).1 (join folder filename)
        ≡ some contents
  write_data_to_file-true folder filename contents data_type w =
      write_data_to_file_lem folder filename contents data_type w true

  -- On a disk that obeys `DiskLaws`: when `write_data_to_file` answers `Ok(false)`, no file's
  -- content has changed.
  pub write_data_to_file-false :
      (folder filename : Text) (contents : Bytes) (data_type : Text) (w : World H)
      → (write_data_to_file H folder filename contents data_type w).0 ≡ ok false
      → (q : Text) → at (write_data_to_file H folder filename contents data_type w).1 q ≡ at w q
  write_data_to_file-false folder filename contents data_type w =
      write_data_to_file_lem folder filename contents data_type w false

  -- On a disk that obeys `DiskLaws`: whatever the outcome of `write_data_to_file`, an error
  -- included, a path that does not lead to the file written keeps its content.
  pub write_data_to_file_ne :
      (folder filename : Text) (contents : Bytes) (data_type : Text) (w : World H) (q : Text)
      → ¬ L.SameFile (join folder filename) q
      → at (write_data_to_file H folder filename contents data_type w).1 q ≡ at w q
  unfolding write_data_to_file write_in_folder
  write_data_to_file_ne folder filename contents data_type w q h =
      let w₁ = (ensure_folder H folder filename w).1 in
      ground (
        arith,
        content-ensure_folder folder filename w q,
        content-is_unchanged (join folder filename) contents w₁,
        write_now_ne (join folder filename) contents data_type w₁ q h,
      )

  -- On a disk that obeys `DiskLaws`: with a folder and a file that exist, a file that can be read
  -- and whose content has another digest, a write that succeeds and no DEFAULT_FILE_MODE, the
  -- answer is `Ok(true)`.
  pub write_data_to_file_changed :
      (folder filename : Text) (contents current : Bytes) (data_type : Text) (w : World H)
      → H.exists w.disk folder ≡ true
      → H.exists w.disk (join folder filename) ≡ true
      → H.read w.disk (join folder filename) ≡ ok current
      → H.sha256 contents ≢ H.sha256 current
      → (H.write w.disk (join folder filename) contents).0 ≡ ok tt
      → default_file_mode H ≡ none
      → (write_data_to_file H folder filename contents data_type w).0 ≡ ok true
  unfolding write_data_to_file ensure_folder write_in_folder is_unchanged write_now apply_mode
  write_data_to_file_changed folder filename contents current data_type w fe pe rd ne wr nm =
      ground (arith, list_beq_iff (H.sha256 contents) (H.sha256 current))

  -- A file whose contents have the same digest is left alone.
  write_data_to_file_unchanged :
      (folder filename : Text) (contents current : Bytes) (data_type : Text) (w : World H)
      → H.exists w.disk folder ≡ true
      → H.exists w.disk (join folder filename) ≡ true
      → H.read w.disk (join folder filename) ≡ ok current
      → H.sha256 contents ≡ H.sha256 current
      → ((write_data_to_file H folder filename contents data_type w).0 ≡ ok false)
        × ((write_data_to_file H folder filename contents data_type w).1.disk ≡ w.disk)
  unfolding write_data_to_file ensure_folder write_in_folder is_unchanged
  write_data_to_file_unchanged folder filename contents current data_type w fe pe rd same =
      ground (arith, list_beq_iff (H.sha256 contents) (H.sha256 current))

  -- On a disk that obeys `DiskLaws`: after a write that answered `Ok(true)`, if the folder exists
  -- and the file can be read, writing the same contents again answers `Ok(false)` and leaves the
  -- disk as it was.
  pub write_data_to_file_again :
      (folder filename : Text) (contents current : Bytes) (data_type : Text) (w : World H)
      → (write_data_to_file H folder filename contents data_type w).0 ≡ ok true
      → H.exists (write_data_to_file H folder filename contents data_type w).1.disk folder ≡ true
      → H.read
          (write_data_to_file H folder filename contents data_type w).1.disk
          (join folder filename)
        ≡ ok current
      → let w' = (write_data_to_file H folder filename contents data_type w).1 in
        ((write_data_to_file H folder filename contents data_type w').0 ≡ ok false)
        × ((write_data_to_file H folder filename contents data_type w').1.disk ≡ w'.disk)
  write_data_to_file_again folder filename contents current data_type w h fe rd =
      let w' = (write_data_to_file H folder filename contents data_type w).1 in
      let path = join folder filename in
      let held = write_data_to_file_lem folder filename contents data_type w true h in
      let now = L.content-read w'.disk path current rd in
      write_data_to_file_unchanged folder filename contents current data_type w' fe
        (L.exists-read w'.disk path current rd) rd
        (ap H.sha256 (some-injective contents current (sym held ∙ now)))
