-- ===== src/Script.antt =====
-- src/script.rs: running SCRIPT, and the rendering of its output. The child runs to its end before
-- the program goes on, and may change the disk.
pub mod Repr
use Prim.Native.Nat.{bit_and}
use k8s_sidecar_rs.Base.{
  Text, Bytes, ascii, ℕ, ◌+◌, ◌-◌, ◌/◌, ◌%◌, Bool, true, false, not, Option, none, some, List, [],
  ◌∷◌, ◌++◌, ◌==◌, nat_eq, Result, ok, err, map_err, ltb, in_range, if◌then◌else◌,
}
use k8s_sidecar_rs.Base.Number.{decimal}
use k8s_sidecar_rs.Host.World.{Host, World, Output, IoError}
use k8s_sidecar_rs.Host.Io.{Io, Act, pure, ◌>>=◌, ◌>>◌, ◌>>=?◌, debug, info, error}

-- A lower-case hexadecimal digit.
abbrev pub hex_digit : ℕ → ℕ
hex_digit n = if ltb n 10 then b'0' + n else b'a' + (n - 10)

unfoldable pub escape_byte : ℕ → Text
escape_byte b =
    if b == b'\\'
    then ascii "\\\\"
    else if b == b'\''
    then ascii "\\'"
    else if b == b'\n'
    then ascii "\\n"
    else if b == b'\r'
    then ascii "\\r"
    else if b == b'\t'
    then ascii "\\t"
    else if in_range 0x20 0x7E b
    then b ∷ []
    else b'\\' ∷ b'x' ∷ hex_digit (b / 16) ∷ hex_digit (b % 16) ∷ []

unfoldable pub escape_bytes : Bytes → Text
escape_bytes [] = []
escape_bytes (b ∷ bytes) = escape_byte b ++ escape_bytes bytes

unfoldable pub bytes_repr : Bytes → Text
bytes_repr bytes = ascii "b'" ++ (escape_bytes bytes ++ ascii "'")

pub executing_msg : Text → Text
executing_msg path = ascii "Executing script from " ++ path

pub stdout_msg : Bytes → Text
stdout_msg bytes = ascii "Script stdout: " ++ bytes_repr bytes

pub stderr_msg : Bytes → Text
stderr_msg bytes = ascii "Script stderr: " ++ bytes_repr bytes

pub exit_msg : Text
exit_msg = ascii "Script exit code: 0"

abbrev code_text : Option ℕ → Text
code_text none = ascii "-1"
code_text (some code) = decimal code

pub failed_msg : Text → Option ℕ → Text
failed_msg argv_repr code =
    ascii "Script failed with error: Command '"
    ++ argv_repr
    ++ ascii "' returned non-zero exit status "
    ++ code_text code
    ++ ascii "."

pub spawn_error : Text → Text → Text
spawn_error script_path e = e ++ ascii ": '" ++ script_path ++ ascii "'"

-- The command line, and its Python repr.
unfoldable pub argv : Bool → Text → List Text
argv executable script_path = if executable then script_path ∷ [] else ascii "sh" ∷ script_path ∷ []

pub argv_repr : Bool → Text → Text
argv_repr executable script_path =
    if executable
    then ascii "['" ++ script_path ++ ascii "']"
    else ascii "['sh', '" ++ script_path ++ ascii "']"

abbrev pub success : Option ℕ → Bool
success none = false
success (some code) = code == 0

module _ (H : Host) where
  -- mode & 0o111 != 0, and false where the metadata cannot be read
  abbrev pub any_execute_bit : Result ℕ IoError → Bool
  any_execute_bit (ok mode) = not (bit_and mode 0o111 == 0)
  any_execute_bit (err e) = false

  abbrev pub run : List Text → Act H Text Output
  run command w =
      let (r, d, n) = H.run_command command w.disk w.net in (r, record w { disk = d; net = n })

  unfoldable pub report : Text → Output → Io H Unit
  report repr output =
      if success output.code
      then (debug H (stdout_msg output.stdout)
          >> debug H (stderr_msg output.stderr)
          >> debug H exit_msg)
      else error H (failed_msg repr output.code)

  -- A script that cannot be started is an error. One that fails is logged and is none.
  unfoldable pub execute : Text → Act H Text Unit
  execute script_path w =
      let executable = any_execute_bit (H.mode w.disk script_path) in
      (info H (executing_msg script_path)
          >> (run (argv executable script_path) >>= λ output.
              pure (map_err (spawn_error script_path) output))
          >>=? λ output. report (argv_repr executable script_path) output >> pure (ok tt))
        w
