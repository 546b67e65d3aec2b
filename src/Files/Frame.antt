-- ===== src/Files/Frame.antt =====
-- src/files.rs: writing and removal touch the disk and the log, and nothing else.
use k8s_sidecar_rs.Base.{Text, Bytes, ℕ, Option, none, some, ◌≡◌, refl, arith}
use k8s_sidecar_rs.Base.Number.{parse_unsigned, u32_limit}
use k8s_sidecar_rs.Host.World.{Host, World}
use k8s_sidecar_rs.Resources.Cache.{Maps}
use k8s_sidecar_rs.Health.Status.{Health}
use k8s_sidecar_rs.Files.{
  join, on_mkdir_error, made, ensure_folder, is_unchanged, chmod_to, apply_mode, default_file_mode,
  write_now, written, write_in_folder, write_data_to_file, remove_file,
}

module _ (H : Host) where
  -- The state beside the disk.
  abbrev pub Shared : Type 0
  Shared = Maps × Health × H.Net

  abbrev pub shared : World H → Shared
  shared w = (w.maps, w.health, w.net)

  shared-ensure_folder :
      (folder filename : Text) (w : World H)
      → shared (ensure_folder H folder filename w).1 ≡ shared w
  unfolding ensure_folder made on_mkdir_error
  shared-ensure_folder folder filename w = ground arith

  shared-chmod_to :
      (path : Text) (mode : Option ℕ) (w : World H) → shared (chmod_to H path mode w).1 ≡ shared w
  unfolding chmod_to
  shared-chmod_to path none w = refl
  shared-chmod_to path (some mode) w = refl

  shared-apply_mode :
      (path : Text) (mode : Option Text) (w : World H)
      → shared (apply_mode H path mode w).1 ≡ shared w
  unfolding apply_mode
  shared-apply_mode path none w = refl
  shared-apply_mode path (some mode_str) w =
      ground (arith, shared-chmod_to path (parse_unsigned 8 u32_limit mode_str) w)

  shared-write_now :
      (path : Text) (contents : Bytes) (data_type : Text) (w : World H)
      → shared (write_now H path contents data_type w).1 ≡ shared w
  unfolding write_now
  shared-write_now path contents data_type w =
      let w' = written H path contents data_type w in
      ground (arith, shared-apply_mode path (default_file_mode H) w')

  shared-write_in_folder :
      (folder filename : Text) (contents : Bytes) (data_type : Text) (w : World H)
      → shared (write_in_folder H folder filename contents data_type w).1 ≡ shared w
  unfolding write_in_folder is_unchanged
  shared-write_in_folder folder filename contents data_type w =
      ground (arith, shared-write_now (join folder filename) contents data_type w)

  pub shared-write_data_to_file :
      (folder filename : Text) (contents : Bytes) (data_type : Text) (w : World H)
      → shared (write_data_to_file H folder filename contents data_type w).1 ≡ shared w
  unfolding write_data_to_file
  shared-write_data_to_file folder filename contents data_type w =
      let w' = (ensure_folder H folder filename w).1 in
      ground (
        arith,
        shared-ensure_folder folder filename w,
        shared-write_in_folder folder filename contents data_type w',
      )

  pub shared-remove_file :
      (folder filename : Text) (w : World H) → shared (remove_file H folder filename w).1 ≡ shared w
  unfolding remove_file
  shared-remove_file folder filename w = ground arith
