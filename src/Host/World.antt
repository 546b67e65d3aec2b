-- ===== src/Host/World.antt =====
-- The interfaces of the outside world, and the state that the program's tasks share.
use k8s_sidecar_rs.Base.{Text, Bytes, ℕ, Bool, Option, List, Result}
use k8s_sidecar_rs.Kubeapi.Items.{ConfigMap, Secret, KubeError}
use k8s_sidecar_rs.Logger.Level.{Level}
use k8s_sidecar_rs.Resources.Cache.{Maps}
use k8s_sidecar_rs.Health.Status.{Health}

-- std::io::ErrorKind, as far as the program tells kinds apart.
pub data ErrorKind : Type 0 where
  permission_denied already_exists not_found invalid_data other : ErrorKind

pub record IoError : Type 0 where
  pub kind : ErrorKind
  pub message : Text

-- std::fs over an unknown disk.
pub record FileSystem : Type 1 where
  pub Disk : Type 0
  pub exists : Disk → Text → Bool
  pub is_file : Disk → Text → Bool
  pub read : Disk → Text → Result Bytes IoError
  pub mode : Disk → Text → Result ℕ IoError
  pub create_dir_all : Disk → Text → Result Unit IoError × Disk
  pub write : Disk → Text → Bytes → Result Unit IoError × Disk
  pub set_permissions : Disk → Text → ℕ → Result Unit IoError × Disk
  pub remove_file : Disk → Text → Result Unit IoError × Disk

-- kube::Api::all and kube::Api::namespaced.
pub data Scope : Type 0 where
  all : Scope
  namespaced : Text → Scope

pub record ListParams : Type 0 where
  pub labels : Text
  pub limit : ℕ
  pub continue_token : Option Text

pub record Page (A : Type 0) : Type 0 where
  pub items : List A
  pub continue_ : Option Text

-- reqwest::RequestBuilder as it is sent.
pub record HttpRequest (Json : Type 0) : Type 0 where
  pub post : Bool
  pub url : Text
  pub authorization : Option Text
  pub json : Option Json

-- The body is read after the status is known, and reading it may fail.
pub record HttpResponse : Type 0 where
  pub status : ℕ
  pub body : Result Bytes Text

-- std::process::Output; there is no code after a signal.
pub record Output : Type 0 where
  pub code : Option ℕ
  pub stdout : Bytes
  pub stderr : Bytes

pub record Host : Type 1 where
  pub files : FileSystem
  pub open files use *
  -- Everything outside that is no file: servers, clocks, processes.
  pub Net : Type 0
  pub var : Text → Option Text
  pub elapsed_ms : Net → ℕ
  -- sha2
  pub sha256 : Bytes → Bytes
  -- base64, the standard alphabet
  pub base64 : Bytes → Text
  -- serde_json
  pub Json : Type 0
  pub json_null : Json
  pub json_text : Json → Text
  -- f64
  pub F64 : Type 0
  pub f64_mul : F64 → F64 → F64
  pub f64_min : F64 → F64 → F64
  pub f64_powi : F64 → ℕ → F64
  -- the literal n / d
  pub f64_literal : ℕ → ℕ → F64
  pub f64_parse : Text → Option F64
  -- reqwest: the client takes whether to accept invalid certificates, and the timeout
  pub Client : Type 0
  pub build_client : Bool → F64 → Net → Result Client Text × Net
  pub send : Client → HttpRequest Json → Net → Result HttpResponse Text × Net
  pub canonical_reason : ℕ → Option Text
  -- tokio::process: a program with its arguments
  pub run_command : List Text → Disk → Net → Result Output Text × Disk × Net
  -- kube
  pub list_config_maps : Scope → ListParams → Net → Result (Page ConfigMap) KubeError × Net
  pub list_secrets : Scope → ListParams → Net → Result (Page Secret) KubeError × Net
  pub get_config_map : Scope → Text → Net → Result (Option ConfigMap) KubeError × Net
  pub get_secret : Scope → Text → Net → Result (Option Secret) KubeError × Net

-- A line handed to the logger, or a sleep in seconds.
pub data Event (F64 : Type 0) : Type 0 where
  logged : Level → Text → Event F64
  slept : F64 → Event F64
  slept_secs : ℕ → Event F64

pub record World (H : Host) : Type 0 where
  pub disk : H.Disk
  pub net : H.Net
  pub maps : Maps
  pub health : Health
  pub trace : List (Event H.F64)
