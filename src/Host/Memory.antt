-- ===== src/Host/Memory.antt =====
-- A host in memory, on which the examples run: a disk that is a dictionary, servers that answer
-- from a script, and whole numbers for floats.
use Prim.Native.Nat.{min}
use k8s_sidecar_rs.Base.{
  Text, Bytes, ascii, ℕ, ◌+◌, ◌*◌, ◌/◌, ◌^◌, true, ◌||◌, Option, none, some, List, [], ◌∷◌, ◌≡◌,
  ◌≢◌, refl, Result, ok, err, contains, arith, nat_eq, list_eq, list_beq_iff,
}
use k8s_sidecar_rs.Base.Dict
use k8s_sidecar_rs.Base.Dict.{Dict, get-insert, get-remove, get-nil}
use k8s_sidecar_rs.Base.Number.{parse_unsigned, u64_limit}
use k8s_sidecar_rs.Kubeapi.Items.{ConfigMap, KubeError, transport}
use k8s_sidecar_rs.Health.Status
use k8s_sidecar_rs.Host.World.{FileSystem, Host, World, IoError, not_found, Page, HttpResponse}
use k8s_sidecar_rs.Host.Disk.{DiskLaws}

pub record MemoryDisk : Type 0 where
  pub dirs : List Text
  pub entries : Dict Text Bytes

abbrev pub missing : IoError
missing = record { kind = not_found; message = [] }

abbrev pub read_entry : Option Bytes → Result Bytes IoError
read_entry none = err missing
read_entry (some b) = ok b

abbrev pub remove_entry : MemoryDisk → Text → Option Bytes → Result Unit IoError × MemoryDisk
remove_entry d p none = (err missing, d)
remove_entry d p (some b) = (ok tt, record d { entries = Dict.remove d.entries p })

abbrev pub memory_files : FileSystem
memory_files = record {
  Disk = MemoryDisk;
  exists = λ d p. contains d.dirs p || Dict.contains_key d.entries p;
  is_file = λ d p. Dict.contains_key d.entries p;
  read = λ d p. read_entry (Dict.get d.entries p);
  mode = λ d p. ok 0o644;
  create_dir_all = λ d p. (ok tt, record d { dirs = p ∷ d.dirs });
  write = λ d p b. (ok tt, record d { entries = Dict.insert d.entries p b });
  set_permissions = λ d p m. (ok tt, d);
  remove_file = λ d p. remove_entry d p (Dict.get d.entries p);
}

-- What the servers will answer, in order; `calls` counts the calls.
pub record Script : Type 0 where
  pub calls : ℕ
  pub elapsed : ℕ
  pub responses : List (Result HttpResponse Text)
  pub config_map_pages : List (Result (Page ConfigMap) KubeError)

abbrev pub no_reply : KubeError
no_reply = transport (ascii "no reply")

abbrev pub next_response :
    Script → List (Result HttpResponse Text) → Result HttpResponse Text × Script
next_response n [] = (err [], record n { calls = n.calls + 1 })
next_response n (r ∷ rs) = (r, record n { calls = n.calls + 1; responses = rs })

abbrev pub next_page :
    Script → List (Result (Page ConfigMap) KubeError) → Result (Page ConfigMap) KubeError × Script
next_page n [] = (err no_reply, record n { calls = n.calls + 1 })
next_page n (r ∷ rs) = (r, record n { calls = n.calls + 1; config_map_pages = rs })

abbrev pub memory : (Text → Option Text) → Host
memory vars = record {
  files = memory_files;
  Net = Script;
  var = vars;
  elapsed_ms = λ n. n.elapsed;
  sha256 = λ b. b;
  base64 = λ b. b;
  Json = Text;
  json_null = [];
  json_text = λ j. j;
  F64 = ℕ;
  f64_mul = λ a b. a * b;
  f64_min = λ a b. min a b;
  f64_powi = λ a n. a ^ n;
  f64_literal = λ n d. n / d;
  f64_parse = parse_unsigned 10 u64_limit;
  Client = Unit;
  build_client = λ insecure timeout n. (ok tt, n);
  send = λ c r n. next_response n n.responses;
  canonical_reason = λ status. none;
  run_command = λ argv d n. (ok (record { code = some 0; stdout = []; stderr = [] }), d, n);
  list_config_maps = λ scope params n. next_page n n.config_map_pages;
  list_secrets = λ scope params n. (err no_reply, record n { calls = n.calls + 1 });
  get_config_map = λ scope name n. (err no_reply, record n { calls = n.calls + 1 });
  get_secret = λ scope name n. (err no_reply, record n { calls = n.calls + 1 });
}

pub content-remove :
    (d : MemoryDisk) (p : Text) (o : Option Bytes)
    → o ≡ Dict.get d.entries p
    → (remove_entry d p o).0 ≡ ok tt
    → Dict.get (remove_entry d p o).1.entries p ≡ none
content-remove d p none e h = cc
content-remove d p (some b) e h = rw get-remove (ground (arith, list_beq_iff p p))

pub content-remove_ne :
    (d : MemoryDisk) (p q : Text) (o : Option Bytes)
    → p ≢ q
    → Dict.get (remove_entry d p o).1.entries q ≡ Dict.get d.entries q
content-remove_ne d p q none ne = refl
content-remove_ne d p q (some b) ne = rw get-remove (ground (arith, list_beq_iff p q))

pub remove_entry_failed :
    (d : MemoryDisk) (p : Text) (o : Option Bytes) (e : IoError)
    → (remove_entry d p o).0 ≡ err e
    → (remove_entry d p o).1 ≡ d
remove_entry_failed d p none e h = refl
remove_entry_failed d p (some b) e h = cc

pub content-read : (o : Option Bytes) (b : Bytes) → read_entry o ≡ ok b → o ≡ some b
content-read o b h = ground arith

pub exists-read :
    (d : MemoryDisk) (p : Text) (b : Bytes)
    → read_entry (Dict.get d.entries p) ≡ ok b
    → memory_files.exists d p ≡ true
exists-read d p b h =
    unfold Dict.contains_key in ground (arith, content-read (Dict.get d.entries p) b)

pub content-write :
    (m : Dict Text Bytes) (p : Text) (b : Bytes) → Dict.get (Dict.insert m p b) p ≡ some b
content-write m p b = rw get-insert (ground (arith, list_beq_iff p p))

pub content-write_ne :
    (m : Dict Text Bytes) (p q : Text) (b : Bytes)
    → p ≢ q
    → Dict.get (Dict.insert m p b) q ≡ Dict.get m q
content-write_ne m p q b ne = rw get-insert (ground (arith, list_beq_iff p q))

-- The disk in memory has the behaviour that the theorems about files assume.
abbrev pub memory_laws : DiskLaws memory_files
memory_laws = record {
  SameFile = λ p q. p ≡ q;
  content = λ d p. Dict.get d.entries p;
  content-read = λ d p b. content-read (Dict.get d.entries p) b;
  exists-read = exists-read;
  content-write = λ d p b h. content-write d.entries p b;
  content-write_ne = λ d p q b ne. content-write_ne d.entries p q b ne;
  content-create_dir_all = λ d p q. refl;
  content-set_permissions = λ d p q m. refl;
  content-remove_file = λ d p. content-remove d p (Dict.get d.entries p) refl;
  content-remove_file_ne = λ d p q ne. content-remove_ne d p q (Dict.get d.entries p) ne;
  remove_file_failed = λ d p e. remove_entry_failed d p (Dict.get d.entries p) e;
}

abbrev pub no_vars : Text → Option Text
no_vars name = none

abbrev pub host : Host
host = memory no_vars

abbrev pub quiet : Script
quiet = record { calls = 0; elapsed = 0; responses = []; config_map_pages = [] }

-- A fresh world over some files in /data.
abbrev pub world_of : Dict Text Bytes → Script → World host
world_of entries script = record {
  disk = record { dirs = ascii "/data" ∷ []; entries = entries };
  net = script;
  maps = record { version = []; object = []; dest = [] };
  health = Status.initial;
  trace = [];
}
