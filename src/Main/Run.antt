-- ===== src/Main/Run.antt =====
-- src/main.rs, run: the setup, the first passes, and the hand-over to the watcher tasks.
use k8s_sidecar_rs.Base.{
  Text, ascii, ℕ, Bool, true, Option, none, List, [], ◌∷◌, ◌++◌, map, nat_eq, list_eq, Result, ok,
  err, unwrap_or, if◌then◌else◌,
}
use k8s_sidecar_rs.Base.Str.{split}
use k8s_sidecar_rs.Base.Number.{decimal}
use k8s_sidecar_rs.Kubeapi.Items.{Kind, api, transport}
use k8s_sidecar_rs.Kubeapi.Client.{Kube, init_client}
use k8s_sidecar_rs.Health.Status
use k8s_sidecar_rs.Host.World.{Host}
use k8s_sidecar_rs.Host.Env.{env_u64}
use k8s_sidecar_rs.Host.Io.{Io, Act, pure, ◌>>=◌, ◌>>◌, ◌>>=?◌, info, error}
use k8s_sidecar_rs.Http.Auth.{HttpCfg, is_text}
use k8s_sidecar_rs.Resources.Cache.{CachedItem, Key}
use k8s_sidecar_rs.Resources.Update.{Ctx}
use k8s_sidecar_rs.Resources.List.{WErr, kube, other, out_of_fuel, list_resources}
use k8s_sidecar_rs.Main.Flags.{env_is_true, is_true}
use k8s_sidecar_rs.Main.Settings.{
  Payloads, Settings, default_annotation, required, note_filter, kinds_of, non_empty, or_exit,
  announce_switches, read_payload, ignore_gate, service_namespace,
}

-- The text of a failed pass. `out_of_fuel` is no error of the code.
unfoldable pub werr_to_string : WErr → Text
werr_to_string (kube (api code reason)) = ascii "(" ++ decimal code ++ ascii ") Reason: " ++ reason
werr_to_string (kube (transport message)) = message
werr_to_string (other msg) = msg
werr_to_string out_of_fuel = []

module _ (H : Host) (J : Payloads H) (K : Kube H) where
  -- The setup returns the settings, or the code with which the program ends. This is its part from
  -- the client on.
  unfoldable pub assemble :
      Text → Text → Text → Option H.Json → K.Client → Act H ℕ (Settings H.Json)
  assemble folder_annotation label target_folder req_payload client w =
      let unique_filenames = env_is_true H (ascii "UNIQUE_FILENAMES") in
      let enable_5xx = env_is_true H (ascii "ENABLE_5XX") in
      let (ignore_already_processed, w₁) = ignore_gate H K client (announce_switches H w).1 in
      (service_namespace H >>=? λ sa_namespace. pure (
          ok (record {
            ctx = record {
              label = label;
              label_value = non_empty (H.var (ascii "LABEL_VALUE"));
              target_folder = target_folder;
              folder_annotation = folder_annotation;
              req_method = H.var (ascii "REQ_METHOD");
              req_payload = req_payload;
              script = H.var (ascii "SCRIPT");
              unique_filenames = unique_filenames;
              enable_5xx = enable_5xx;
              resource_name = unwrap_or (H.var (ascii "RESOURCE_NAME")) [];
              mode = H.var (ascii "METHOD");
              watch_server_timeout = env_u64 H (ascii "WATCH_SERVER_TIMEOUT") 60;
              watch_client_timeout = env_u64 H (ascii "WATCH_CLIENT_TIMEOUT") 66;
            };
            kinds = kinds_of (unwrap_or (H.var (ascii "RESOURCE")) (ascii "configmap"));
            namespace = unwrap_or (H.var (ascii "NAMESPACE")) sa_namespace;
            request_url = H.var (ascii "REQ_URL");
            request_skip_init = is_true (H.var (ascii "REQ_SKIP_INIT"));
            ignore_already_processed = ignore_already_processed;
          })))
        w₁

  -- The part after FOLDER.
  unfoldable pub configure : Text → Text → Text → Act H ℕ (Settings H.Json)
  configure folder_annotation label target_folder w =
      let (req_payload, w₁) = read_payload H J w in
      (init_client H K >>= or_exit H >>=? λ client.
      assemble folder_annotation label target_folder req_payload client)
        w₁

  unfoldable pub setup : Act H ℕ (Settings H.Json)
  setup = default_annotation H (H.var (ascii "FOLDER_ANNOTATION")) >>= λ folder_annotation.
      (required H (ascii "LABEL") (H.var (ascii "LABEL")) >>=? λ label.
      (note_filter H (non_empty (H.var (ascii "LABEL_VALUE")))
        >> required H (ascii "FOLDER") (H.var (ascii "FOLDER"))
        >>=? λ target_folder. configure folder_annotation label target_folder))

-- One pass for each kind and each namespace of the comma-separated list, in this order.
abbrev pub Job : Type 0
Job = Kind × Text

unfoldable pub jobs : List Kind → Text → List Job
jobs [] namespace = []
jobs (kind ∷ kinds) namespace =
    map (λ ns. (kind, ns)) (split b',' namespace) ++ jobs kinds namespace

-- How `run` ends: with an exit code, or in the watch loop with one task for each job.
pub data Ending : Type 0 where
  exited : ℕ → Ending
  watching : List Job → Ending

module _ (H : Host) (cfg : HttpCfg H.F64)
    (order : List (Key × CachedItem) → List (Key × CachedItem)) (fuel : ℕ) where
  unfoldable pub run_passes : Ctx H.Json → Option Text → Bool → List Job → Act H WErr Unit
  run_passes ctx request_url ignore_already_processed [] = pure (ok tt)
  run_passes ctx request_url ignore_already_processed ((kind, ns) ∷ rest) =
      list_resources H cfg ctx order fuel kind ns request_url ignore_already_processed >>=? λ u.
      run_passes ctx request_url ignore_already_processed rest

  -- Once all passes have succeeded the sidecar is marked ready. A pass that fails ends the program.
  abbrev pub mark_ready : Io H Unit
  mark_ready w = (tt, record w { health = Status.mark_ready w.health })

  abbrev pub after_passes : Io H Ending → Result Unit WErr → Io H Ending
  after_passes next (ok u) = mark_ready >> next
  after_passes next (err e) = error H (werr_to_string e) >> pure (exited 1)

  abbrev pub register_watchers : List Job → Io H Unit
  register_watchers tasks w =
      (tt, record w { health = Status.register_watchers (map (λ job. true) tasks) w.health })

  abbrev pub init_request_url : Settings H.Json → Io H (Option Text)
  init_request_url s =
      if s.request_skip_init
      then (info H (ascii "Skipping initial request to external endpoint.") >> pure none)
      else pure s.request_url

  abbrev pub start_watchers : List Job → Io H Ending
  start_watchers tasks =
      info H (ascii "Initial sync complete, sidecar is ready.")
      >> register_watchers tasks
      >> pure (watching tasks)

  abbrev pub lists_only : Settings H.Json → Bool
  lists_only s = is_text s.ctx.mode (ascii "LIST")

  -- METHOD=LIST runs the passes alone. Before watching they skip versions that were processed already, whatever
  -- IGNORE_ALREADY_PROCESSED says.
  unfoldable pub first_passes : Settings H.Json → Act H WErr Unit
  first_passes s =
      if lists_only s
      then run_passes s.ctx s.request_url s.ignore_already_processed (jobs s.kinds s.namespace)
      else (info H (ascii "Performing initial list-based sync before starting watch.")
          >> init_request_url s
          >>= λ url. run_passes s.ctx url true (jobs s.kinds s.namespace))

  unfoldable pub start : Settings H.Json → Io H Ending
  start s =
      let next =
        if lists_only s then pure (exited 0) else start_watchers (jobs s.kinds s.namespace) in
      first_passes s >>= after_passes next
