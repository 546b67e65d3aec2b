-- ===== src/Main/Flags.antt =====
-- src/main.rs: `parse_flags` and `env_is_true`. The process arguments are a list, the program's own
-- name already skipped.
use k8s_sidecar_rs.Base.{
  Text, ascii, Bool, false, Option, none, some, List, [], ◌∷◌, Result, ok, err, and_then, ◌==◌,
  nat_eq, list_eq, if◌then◌else◌,
}
use k8s_sidecar_rs.Base.Str.{split_once, to_lowercase}
use k8s_sidecar_rs.Host.World.{Host}

abbrev pub username_flag : Text
username_flag = ascii "--req-username-file"

abbrev pub password_flag : Text
password_flag = ascii "--req-password-file"

-- The file names that the two flags give.
pub record Flags : Type 0 where
  pub username_file : Option Text
  pub password_file : Option Text

-- The argument without the part from its first `=` on, and the part after it.
abbrev pub halves : Text → Option (Text × Text) → Text × Option Text
halves arg none = (arg, none)
halves arg (some (f, v)) = (f, some v)

unfoldable pub set_flag : Text → Option Text → Flags → Result Flags Text
set_flag flag value flags =
    if flag == username_flag
    then ok (record flags { username_file = value })
    else if flag == password_flag
    then ok (record flags { password_file = value })
    else err flag

-- A flag with the value after its `=`, else with the next argument, which is then passed over.
abbrev pub take_flag :
    Flags → Text → Text × Option Text → (stay skip : Flags → Result Flags Text) → Result Flags Text
take_flag flags next (flag, some v) stay skip = and_then (set_flag flag (some v) flags) stay
take_flag flags next (flag, none) stay skip = and_then (set_flag flag (some next) flags) skip

-- The loop over the arguments. The error is the argument that is printed before exit code 2: an
-- unknown flag, which is found before its value is taken.
unfoldable pub parse_from : Flags → List Text → Result Flags Text
parse_from flags [] = ok flags
parse_from flags (arg ∷ []) =
    let (flag, inline) = halves arg (split_once b'=' arg) in set_flag flag inline flags
parse_from flags (arg ∷ next ∷ args) =
    take_flag flags next (halves arg (split_once b'=' arg))
      (λ flags'. parse_from flags' (next ∷ args)) (λ flags'. parse_from flags' args)

abbrev pub no_flags : Flags
no_flags = record { username_file = none; password_file = none }

unfoldable pub parse_flags : List Text → Result Flags Text
parse_flags args = parse_from no_flags args

abbrev pub is_true : Option Text → Bool
is_true none = false
is_true (some v) = to_lowercase v == ascii "true"

unfoldable pub env_is_true : (H : Host) → Text → Bool
env_is_true H name = is_true (H.var name)
