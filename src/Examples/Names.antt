-- ===== src/Examples/Names.antt =====
-- The theorems about names, renderings and the health state at concrete inputs.
use k8s_sidecar_rs.Base.{ascii, true, some, [], ◌∷◌, ◌≡◌, ◌≤◌, ◌↔◌, nat_eq, list_eq, refl, arith}
use k8s_sidecar_rs.Base.Str.{has_char}
use k8s_sidecar_rs.Kubeapi.Items.{secret}
use k8s_sidecar_rs.Files.{unique_filename}
use k8s_sidecar_rs.Files.Names.{unique_filename-injective, unique_filename-collision}
use k8s_sidecar_rs.Script.{bytes_repr}
use k8s_sidecar_rs.Script.Repr.{read_repr, read_repr-bytes_repr}
use k8s_sidecar_rs.Health.Status.{status_body, initial}
use k8s_sidecar_rs.Health.Live.{AllAlive, status_body-code}

unique_filename-injective_example :
    (ascii "n" ≡ ascii "n")
    × (secret ≡ secret)
    × (ascii "r" ≡ ascii "r")
    × (ascii "f.x" ≡ ascii "f.x")
unfolding has_char
unique_filename-injective_example =
    unique_filename-injective (ascii "n") (ascii "n") secret secret (ascii "r") (ascii "r")
      (ascii "f.x") (ascii "f.x") refl refl refl refl refl

unique_filename-collision_example :
    unique_filename (ascii "c") (ascii "n") (ascii "secret") (ascii "a.b")
    ≡ unique_filename (ascii "b.c") (ascii "n") (ascii "secret") (ascii "a")
unique_filename-collision_example =
    unique_filename-collision (ascii "n") (ascii "secret") (ascii "a") (ascii "b") (ascii "c")

read_repr-bytes_repr_example :
    read_repr (bytes_repr (0 ∷ b'a' ∷ b'\'' ∷ 255 ∷ [])) ≡ some (0 ∷ b'a' ∷ b'\'' ∷ 255 ∷ [])
read_repr-bytes_repr_example =
    read_repr-bytes_repr (0 ∷ b'a' ∷ b'\'' ∷ 255 ∷ [])
      (omega arith, (omega arith, (omega arith, (omega arith, tt))))

status_body-code_example :
    ((status_body 5 initial).code ≡ 200) ↔ ((initial.ready ≡ true) × (5 ≤ 60000) × AllAlive [])
status_body-code_example = status_body-code 5 initial
