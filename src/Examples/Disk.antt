-- ===== src/Examples/Disk.antt =====
-- The theorems about files at concrete inputs.
use k8s_sidecar_rs.Base.{
  Text, Bytes, ascii, false, some, ◌≡◌, ok, refl, nat_eq, list_eq, list_beq, contains, Option,
}
use k8s_sidecar_rs.Base.Dict
use k8s_sidecar_rs.Base.Str.{starts_with, ends_with, strip_suffix}
use k8s_sidecar_rs.Host.World.{World}
use k8s_sidecar_rs.Host.Memory.{host, memory_laws}
use k8s_sidecar_rs.Files.{
  join, ensure_folder, is_unchanged, write_now, apply_mode, default_file_mode, write_in_folder,
  write_data_to_file, remove_file,
}
use k8s_sidecar_rs.Files.Write.{
  write_data_to_file-true, write_data_to_file-false, write_data_to_file_again,
}
use k8s_sidecar_rs.Examples.Data.{start}

abbrev write : Text → World host → World host
write contents w =
    (write_data_to_file host (ascii "/data") (ascii "f") contents (ascii "ascii") w).1

abbrev remove : Text → World host → World host
remove name w = (remove_file host (ascii "/data") name w).1

abbrev content : World host → Text → Option Bytes
content w p = memory_laws.content w.disk p

write_data_to_file-true_example :
    content (write (ascii "new") start) (join (ascii "/data") (ascii "f")) ≡ some (ascii "new")
unfolding write_data_to_file ensure_folder write_in_folder is_unchanged write_now apply_mode
    default_file_mode join remove_file Dict.contains_key Dict.get list_beq ends_with starts_with
    strip_suffix contains Dict.insert Dict.remove
write_data_to_file-true_example =
    write_data_to_file-true host memory_laws (ascii "/data") (ascii "f") (ascii "new")
      (ascii "ascii") start refl

write_data_to_file-false_example :
    content (write (ascii "old") start) (ascii "/data/f") ≡ content start (ascii "/data/f")
unfolding write_data_to_file ensure_folder write_in_folder is_unchanged write_now apply_mode
    default_file_mode join remove_file Dict.contains_key Dict.get list_beq ends_with starts_with
    strip_suffix contains Dict.insert Dict.remove
write_data_to_file-false_example =
    write_data_to_file-false host memory_laws (ascii "/data") (ascii "f") (ascii "old")
      (ascii "ascii") start refl (ascii "/data/f")

write_data_to_file_again_example :
    let w = write (ascii "new") start in
    ((write_data_to_file host (ascii "/data") (ascii "f") (ascii "new") (ascii "ascii") w).0
      ≡ ok false)
    × ((write (ascii "new") w).disk ≡ w.disk)
unfolding write_data_to_file ensure_folder write_in_folder is_unchanged write_now apply_mode
    default_file_mode join remove_file Dict.contains_key Dict.get list_beq ends_with starts_with
    strip_suffix contains Dict.insert Dict.remove
write_data_to_file_again_example =
    write_data_to_file_again host memory_laws (ascii "/data") (ascii "f") (ascii "new")
      (ascii "new") (ascii "ascii") start refl refl refl
