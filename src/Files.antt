-- ===== src/Files.antt =====
-- src/files.rs: writing with sha256 suppression, removal, and file names. `DEFAULT_FILE_MODE` is
-- read at each write. The log lines stay shut names: no property depends on their text.
pub mod Names
pub mod Write
pub mod Remove
pub mod Frame
use k8s_sidecar_rs.Base.{
  Text, Bytes, ascii, ℕ, Bool, true, false, not, Option, none, some, [], ◌∷◌, ◌++◌, Result, ok, err,
  map_err, if◌then◌else◌, ◌==◌, nat_eq, list_eq,
}
use k8s_sidecar_rs.Base.Str.{starts_with, ends_with}
use k8s_sidecar_rs.Base.Number.{parse_unsigned, u32_limit}
use k8s_sidecar_rs.Host.World.{
  Host, World, IoError, ErrorKind, permission_denied, already_exists, invalid_data,
}
use k8s_sidecar_rs.Host.Io.{Io, Act, pure, ◌>>=◌, ◌>>◌, ◌>>=?◌, debug, info, error}

pub content_type_text : Text
content_type_text = ascii "ascii"

pub content_type_base64_binary : Text
content_type_base64_binary = ascii "binary"

-- `Path::new(folder).join(filename)` on Unix.
unfoldable pub join : Text → Text → Text
join folder filename =
    if starts_with filename (ascii "/")
    then filename
    else if folder == []
    then filename
    else if ends_with folder (ascii "/")
    then folder ++ filename
    else folder ++ b'/' ∷ filename

unfoldable pub unique_filename : Text → Text → Text → Text → Text
unique_filename filename namespace resource resource_name =
    ascii "namespace_"
    ++ (namespace
        ++ (ascii "." ++ (resource ++ (ascii "_" ++ (resource_name ++ (ascii "." ++ filename))))))

pub no_privileges_msg : Text → Text → Text
no_privileges_msg folder filename =
    ascii "Error: insufficient privileges to create "
    ++ folder
    ++ ascii ". Skipping "
    ++ filename
    ++ ascii "."

pub unchanged_msg : Text → Text
unchanged_msg filename =
    ascii "Contents of " ++ filename ++ ascii " haven't changed. Not overwriting existing file"

pub writing_msg : Text → Text → Text
writing_msg path data_type = ascii "Writing " ++ path ++ ascii " (" ++ data_type ++ ascii ")"

pub removing_msg : Text → Text
removing_msg path = ascii "Removing " ++ path

pub unable_msg : Text → Text
unable_msg path = ascii "Unable to remove " ++ path ++ ascii ", file not found"

module _ (H : Host) where
  -- An operation of the file system, in the world.
  abbrev pub on_disk : {A : Type 0} → (H.Disk → Result A IoError × H.Disk) → Act H IoError A
  on_disk op w = let (r, d) = op w.disk in (r, record w { disk = d })

  -- What is done about an error of `create_dir_all`; false means that the write is skipped.
  unfoldable pub on_mkdir_error : Text → Text → IoError → ErrorKind → Act H IoError Bool
  on_mkdir_error folder filename e permission_denied =
      error H (no_privileges_msg folder filename) >> pure (ok false)
  on_mkdir_error folder filename e already_exists = pure (ok true)
  on_mkdir_error folder filename e _ = pure (err e)

  unfoldable pub made : Text → Text → Result Unit IoError → Act H IoError Bool
  made folder filename (ok _) = pure (ok true)
  made folder filename (err e) = on_mkdir_error folder filename e e.kind

  unfoldable pub ensure_folder : Text → Text → Act H IoError Bool
  ensure_folder folder filename w =
      if H.exists w.disk folder
      then (ok true, w)
      else (on_disk (λ d. H.create_dir_all d folder) >>= made folder filename) w

  abbrev pub same_digest : Bytes → Bytes → Bool
  same_digest a b = H.sha256 a == H.sha256 b

  -- Whether the file is already there with this content; reading it may fail.
  unfoldable pub is_unchanged : Text → Bytes → Act H IoError Bool
  is_unchanged path contents w =
      if H.exists w.disk path
      then (elim (H.read w.disk path) [
        | ok current ↦ (ok (same_digest contents current), w)
        | err e ↦ (err e, w)
      ])
      else (ok false, w)

  pub invalid_mode : IoError
  invalid_mode = record { kind = invalid_data; message = ascii "invalid DEFAULT_FILE_MODE" }

  unfoldable pub chmod_to : Text → Option ℕ → Act H IoError Unit
  chmod_to path none = pure (err invalid_mode)
  chmod_to path (some mode) = on_disk (λ d. H.set_permissions d path mode)

  -- DEFAULT_FILE_MODE, unless it is absent or empty.
  unfoldable pub apply_mode : Text → Option Text → Act H IoError Unit
  apply_mode path none = pure (ok tt)
  apply_mode path (some mode_str) =
      if mode_str == [] then pure (ok tt) else chmod_to path (parse_unsigned 8 u32_limit mode_str)

  unfoldable pub default_file_mode : Option Text
  default_file_mode = H.var (ascii "DEFAULT_FILE_MODE")

  -- The world after the write itself.
  abbrev pub written : Text → Bytes → Text → World H → World H
  written path contents data_type w =
      (on_disk (λ d. H.write d path contents) (info H (writing_msg path data_type) w).1).1

  -- The part after the tests: write, then chmod.
  unfoldable pub write_now : Text → Bytes → Text → Act H IoError Bool
  write_now path contents data_type =
      info H (writing_msg path data_type) >> on_disk (λ d. H.write d path contents) >>=? λ _.
      apply_mode path default_file_mode >>=? λ _. pure (ok true)

  unfoldable pub write_in_folder : Text → Text → Bytes → Text → Act H IoError Bool
  write_in_folder folder filename contents data_type =
      is_unchanged (join folder filename) contents >>=? λ unchanged.
      if unchanged
      then debug H (unchanged_msg filename) >> pure (ok false)
      else write_now (join folder filename) contents data_type

  unfoldable pub write_data_to_file : Text → Text → Bytes → Text → Act H IoError Bool
  write_data_to_file folder filename contents data_type =
      ensure_folder folder filename >>=? λ proceed.
      if proceed then write_in_folder folder filename contents data_type else pure (ok false)

  abbrev pub is_ok : {A E : Type 0} → Result A E → Bool
  is_ok (ok _) = true
  is_ok (err _) = false

  unfoldable pub remove_file : Text → Text → Io H Bool
  remove_file folder filename w =
      let path = join folder filename in
      if H.is_file w.disk path
      then (info H (removing_msg path) >> on_disk (λ d. H.remove_file d path) >>= λ r.
            pure (is_ok r))
          w
      else (error H (unable_msg path) >> pure false) w
