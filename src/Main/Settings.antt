-- ===== src/Main/Settings.antt =====
-- src/main.rs, run: what the environment says, up to the first pass.
use k8s_sidecar_rs.Base.{
  Text, ascii, ℕ, Bool, true, false, not, Option, none, some, List, [], ◌∷◌, ◌++◌, ◌==◌, nat_eq,
  list_eq, Result, ok, err, filter_option, unwrap_or, if◌then◌else◌,
}
use k8s_sidecar_rs.Kubeapi.Items.{Kind, config_map, secret, KubeError}
use k8s_sidecar_rs.Kubeapi.Client.{Kube, Version, server_version}
use k8s_sidecar_rs.Logger.Level.{Level}
use k8s_sidecar_rs.Host.World.{Host}
use k8s_sidecar_rs.Host.Io.{Io, Act, pure, ◌>>=◌, ◌>>◌, log, debug, info, warning, error}
use k8s_sidecar_rs.Http.Auth.{text_of}
use k8s_sidecar_rs.Resources.Update.{Ctx}
use k8s_sidecar_rs.Main.Flags.{env_is_true}
use k8s_sidecar_rs.Main.Version.{is_supported}

-- serde_json, as far as REQ_PAYLOAD is read: a JSON text, and the string that holds a text.
pub record Payloads (H : Host) : Type 0 where
  pub from_str : Text → Option H.Json
  pub string : Text → H.Json

-- The locals of `run` that outlive the setup.
pub record Settings (Json : Type 0) : Type 0 where
  pub ctx : Ctx Json
  pub kinds : List Kind
  pub namespace : Text
  pub request_url : Option Text
  pub request_skip_init : Bool
  pub ignore_already_processed : Bool

pub missing_msg : Text → Text
missing_msg name = ascii "Should have added " ++ name ++ ascii " as environment variable! Exit"

pub default_annotation_msg : Text
default_annotation_msg =
    ascii "No folder annotation was provided, defaulting to k8s-sidecar-target-directory"

pub filter_msg : Text → Text
filter_msg v = ascii "Filter labels with value: " ++ v

pub resource_type_msg : Text → Text
resource_type_msg repr = ascii "Selected resource type: " ++ repr

pub resource_name_msg : Text → Text
resource_name_msg name = ascii "Selected resource name: " ++ name

pub low_version_msg : Text → Text
low_version_msg git_version =
    ascii "Can't enable 'ignore already processed resource version', kubernetes api version ("
    ++ git_version
    ++ ascii ") is lower than v1.19 or unrecognized format."

pub no_namespace_msg : Text → Text
no_namespace_msg e =
    ascii "FileNotFoundError: "
    ++ e
    ++ ascii ": '/var/run/secrets/kubernetes.io/serviceaccount/namespace'"

abbrev pub namespace_path : Text
namespace_path = ascii "/var/run/secrets/kubernetes.io/serviceaccount/namespace"

-- RESOURCE, and how the log line shows it.
unfoldable pub kinds_of : Text → List Kind
kinds_of resource =
    if resource == ascii "both"
    then secret ∷ config_map ∷ []
    else if resource == ascii "secret"
    then secret ∷ []
    else config_map ∷ []

abbrev pub repr_of : Text → Text
repr_of resource =
    if resource == ascii "both"
    then ascii "('secret', 'configmap')"
    else ascii "('" ++ resource ++ ascii "',)"

abbrev pub non_empty : Option Text → Option Text
non_empty = filter_option (λ (s : Text). not (s == []))

module _ (H : Host) where
  abbrev pub default_annotation : Option Text → Io H Text
  default_annotation (some v) = pure v
  default_annotation none =
      info H default_annotation_msg >> pure (ascii "k8s-sidecar-target-directory")

  -- A missing variable ends the program with code 0.
  abbrev pub required : Text → Option Text → Act H ℕ Text
  required name (some v) = pure (ok v)
  required name none = log H Level.critical (missing_msg name) >> pure (err 0)

  abbrev pub note_filter : Option Text → Io H Unit
  note_filter none = pure tt
  note_filter (some v) = debug H (filter_msg v)

  abbrev pub announce : Bool → Text → Text → Io H Unit
  announce enabled on off = info H (if enabled then on else off)

  -- An error of the setup is logged, and ends the program with code 1.
  abbrev pub or_exit : {A : Type 0} → Result A Text → Act H ℕ A
  or_exit (ok a) = pure (ok a)
  or_exit (err e) = error H e >> pure (err 1)

  abbrev pub service_namespace : Act H ℕ Text
  service_namespace w = elim (text_of H (H.read w.disk namespace_path)) [
    | ok ns ↦ (ok ns, w)
    | err e ↦ (error H (no_namespace_msg e.message) >> pure (err 1)) w
  ]

  -- The two switches, as they are logged.
  abbrev pub announce_switches : Io H Unit
  announce_switches =
      announce (env_is_true H (ascii "UNIQUE_FILENAMES"))
        (ascii "Unique filenames will be enforced.")
        (ascii "Unique filenames will not be enforced.")
      >> announce (env_is_true H (ascii "ENABLE_5XX"))
          (ascii "5xx response content will be enabled.")
          (ascii "5xx response content will not be enabled.")

  module _ (J : Payloads H) where
    abbrev pub parsed_payload : Text → Option H.Json → Io H H.Json
    parsed_payload p (some json) = pure json
    parsed_payload p none =
        warning H (ascii "Payload will be posted as quoted json") >> pure (J.string p)

    abbrev pub payload_of : Option Text → Io H (Option H.Json)
    payload_of none = pure none
    payload_of (some p) = parsed_payload p (J.from_str p) >>= λ json. pure (some json)

    -- RESOURCE and RESOURCE_NAME are logged before the payload is read.
    abbrev pub read_payload : Io H (Option H.Json)
    read_payload =
        debug H
          (resource_type_msg (repr_of (unwrap_or (H.var (ascii "RESOURCE")) (ascii "configmap"))))
        >> debug H (resource_name_msg (unwrap_or (H.var (ascii "RESOURCE_NAME")) []))
        >> payload_of (non_empty (H.var (ascii "REQ_PAYLOAD")))

  module _ (K : Kube H) where
    abbrev pub on_version : Result Version KubeError → Io H Bool
    on_version (err e) = error H (ascii "Exception when calling VersionApi") >> pure false
    on_version (ok version) =
        if is_supported version
        then (info H (ascii "Ignore already processed resource version will be enabled.")
            >> pure true)
        else (info H (low_version_msg version.git_version) >> pure false)

    unfoldable pub ignore_gate : K.Client → Io H Bool
    ignore_gate client =
        (if env_is_true H (ascii "IGNORE_ALREADY_PROCESSED")
          then (server_version H K client >>= on_version)
          else pure false)
        >>= λ enabled.
            (if enabled
              then pure tt
              else debug H (ascii "Ignore already processed resource version will not be enabled."))
            >> pure enabled
