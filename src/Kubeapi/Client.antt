-- ===== src/Kubeapi/Client.antt =====
-- src/kubeapi.rs: `kubeconfig_path`, `init_client` and `server_version`. What the kube crate does with
-- a configuration is a parameter.
use mathlib.Core.Option
use k8s_sidecar_rs.Base.{
  Text, ascii, ℕ, ◌++◌, Bool, Option, none, some, Result, ok, err, map_err, unwrap_or,
  if◌then◌else◌,
}
use k8s_sidecar_rs.Base.Str.{to_lowercase, trim_end_matches}
use k8s_sidecar_rs.Base.{nat_eq, list_eq}
use k8s_sidecar_rs.Kubeapi.Items.{KubeError}
use k8s_sidecar_rs.Host.World.{Host}
use k8s_sidecar_rs.Host.Env.{env_u64}
use k8s_sidecar_rs.Host.Io.{Io, Act, pure, ◌>>◌, ◌>>=?◌, info, debug, warning}
use k8s_sidecar_rs.Http.Auth.{is_text}

-- The texts of the API server's version.
pub record Version : Type 0 where
  pub major : Text
  pub minor : Text
  pub git_version : Text

-- kube::config, kube::Client and apiserver_version.
pub record Kube (H : Host) : Type 1 where
  pub Kubeconfig : Type 0
  pub Config : Type 0
  pub Client : Type 0
  pub read_from : H.Disk → Text → Result Kubeconfig Text
  pub from_custom_kubeconfig : Kubeconfig → H.Net → Result Config Text × H.Net
  pub incluster : H.Disk → Result Config Text
  pub accept_invalid_certs : Config → Config
  pub read_timeout : ℕ → Config → Config
  pub cluster_url : Config → Text
  pub try_from : Config → Result Client Text
  pub apiserver_version : Client → H.Net → Result Version KubeError × H.Net

pub loading_msg : Text → Text
loading_msg path = ascii "Loading config from '" ++ path ++ ascii "'..."

pub loaded_msg : Text → Text
loaded_msg host = ascii "Config for cluster api at '" ++ host ++ ascii "' loaded."

pub client_error : Text → Text
client_error e = ascii "Unexpected error during Kubernetes client initialization: " ++ e

module _ (H : Host) where
  abbrev pub kubeconfig_var : Text
  kubeconfig_var =
      unwrap_or (H.var (ascii "KUBECONFIG"))
        (unwrap_or (H.var (ascii "HOME")) (ascii "") ++ ascii "/.kube/config")

  unfoldable pub kubeconfig_path : H.Disk → Option Text
  kubeconfig_path d = if H.exists d kubeconfig_var then some kubeconfig_var else none

  abbrev pub skips_tls_verify : Bool
  skips_tls_verify = is_text (H.var (ascii "SKIP_TLS_VERIFY")) (ascii "true")

  abbrev pub relaxes_x509 : Bool
  relaxes_x509 =
      is_text (Option.map to_lowercase (H.var (ascii "DISABLE_X509_STRICT_VERIFICATION")))
        (ascii "true")

  module _ (K : Kube H) where
    -- The two sources of the configuration, and the log line before each.
    unfoldable pub load_config : Option Text → Act H Text K.Config
    load_config none w = (
      map_err client_error (K.incluster w.disk),
      (info H (ascii "Loading incluster config...") w).1,
    )
    load_config (some path) w =
        let w' = (info H (loading_msg path) w).1 in
        elim (K.read_from w'.disk path) [
          | err e ↦ (err (client_error e), w')
          | ok kc ↦
              let (config, net) = K.from_custom_kubeconfig kc w'.net in
              (map_err client_error config, record w' { net = net })
        ]

    abbrev pub adjusted : K.Config → K.Config
    adjusted config =
        K.read_timeout (env_u64 H (ascii "WATCH_CLIENT_TIMEOUT") 66)
          (if skips_tls_verify then K.accept_invalid_certs config else config)

    abbrev warn_x509 : Io H Unit
    warn_x509 =
        if relaxes_x509
        then warning H (ascii "Disabling strict X.509 certificate verification")
        else pure tt

    unfoldable pub init_client : Act H Text K.Client
    init_client w =
        (load_config (kubeconfig_path w.disk) >>=? λ config.
        (warn_x509
          >> debug H (loaded_msg (trim_end_matches b'/' (K.cluster_url (adjusted config))))
          >> pure (map_err client_error (K.try_from (adjusted config)))))
          w

    unfoldable pub server_version : K.Client → Act H KubeError Version
    server_version client w =
        let (got, net) = K.apiserver_version client w.net in (got, record w { net = net })
