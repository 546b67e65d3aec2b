-- ===== src/Examples/Startup.antt =====
-- The theorems about the setup and the first passes at concrete inputs.
use mathlib.Core.Option
use k8s_sidecar_rs.Base.{
  Text, ascii, Option, ℕ, ◌≤◌, ◌<◌, true, false, none, some, List, [], ◌∷◌, ◌≡◌, ◌⊎◌, ◌↔◌, inl,
  refl, ok, err, arith, nat_eq, list_eq, list_beq,
}
use k8s_sidecar_rs.Base.Str.{has_char, split}
use k8s_sidecar_rs.Kubeapi.Items.{config_map}
use k8s_sidecar_rs.Kubeapi.Client.{Kube}
use k8s_sidecar_rs.Kubeapi.Api.{list_page, page_of}
use k8s_sidecar_rs.Kubeapi.Retry.{with_transport_retry, retry_from}
use k8s_sidecar_rs.Host.Env.{env_u32, env_f64}
use k8s_sidecar_rs.Host.Backoff.{pause}
use k8s_sidecar_rs.Host.World.{World}
use k8s_sidecar_rs.Host.Memory.{host, quiet, world_of}
use k8s_sidecar_rs.Resources.List.{
  list_resources, find_items, resource_names, is_all, list_items, apply_items, work_items,
  stale_items, remove_items, notify,
}
use k8s_sidecar_rs.Main.Flags.{parse_flags, no_flags, username_flag, password_flag}
use k8s_sidecar_rs.Main.Spelling.{Spelled, joined, apart, set_all, parse_flags-Spelled}
use k8s_sidecar_rs.Main.Spelling
use k8s_sidecar_rs.Main.Version.{is_supported, digits_of}
use k8s_sidecar_rs.Main.Gate.{numbered, is_supported-numbered}
use k8s_sidecar_rs.Main.Settings.{Payloads, Settings}
use k8s_sidecar_rs.Main.Run.{watching, jobs, setup, run_passes, first_passes, start}
use k8s_sidecar_rs.Health.Status.{any_dead}
use k8s_sidecar_rs.Main.Run.{Job}
use k8s_sidecar_rs.Main.Monitor.{monitor_round, report_dead}
use k8s_sidecar_rs.Resources.Watch.{lower, lowered}
use k8s_sidecar_rs.Main.System.{running, ended, Reach, later, dies, stops}
use k8s_sidecar_rs.Main.Handover.{start-ended}
use k8s_sidecar_rs.Main.Setup.{setup-code}
use k8s_sidecar_rs.Main.Passes.{pass_url, pass_ignore, pass_world, Synced, start-Synced}
use k8s_sidecar_rs.Examples.Data.{cfg, ctx, in_order}

-- `--req-username-file=a --req-password-file b`
abbrev pairs : List (Text × Text)
pairs = (username_flag, ascii "a") ∷ (password_flag, ascii "b") ∷ []

abbrev arguments : List Text
arguments = ascii "--req-username-file=a" ∷ ascii "--req-password-file" ∷ ascii "b" ∷ []

spelled : Spelled pairs arguments
unfolding has_char
spelled = joined refl (apart refl Spelling.done)

parse_flags-Spelled_example : parse_flags arguments ≡ set_all no_flags pairs
parse_flags-Spelled_example = parse_flags-Spelled spelled

is_supported-numbered_example :
    (is_supported
        (record { major = numbered 1 []; minor = numbered 27 (ascii "+"); git_version = [] })
      ≡ true)
    ↔ ((1 < 1) ⊎ ((◌≡◌ {A = ℕ} 1 1) × (19 ≤ 27)))
unfolding digits_of
is_supported-numbered_example =
    is_supported-numbered 1 27 [] (ascii "+") [] refl refl (omega arith) (omega arith)

-- A crate that answers with version 1.27, and texts as JSON.
abbrev crate : Kube host
crate = record {
  Kubeconfig = Unit;
  Config = Unit;
  Client = Unit;
  read_from = λ d path. ok tt;
  from_custom_kubeconfig = λ kc n. (ok tt, n);
  incluster = λ d. ok tt;
  accept_invalid_certs = λ c. c;
  read_timeout = λ t c. c;
  cluster_url = λ c. ascii "https://k/";
  try_from = λ c. ok tt;
  apiserver_version =
      λ c n. (ok (record { major = ascii "1"; minor = ascii "27"; git_version = [] }), n);
}

abbrev payloads : Payloads host
payloads = record { from_str = λ s. none; string = λ s. s }

abbrev fresh : World host
fresh =
    world_of []
      (record quiet { config_map_pages = ok (record { items = []; continue_ = none }) ∷ [] })

setup-code_example :
    (((setup host payloads crate fresh).0 ≡ err 0)
      ↔ ((host.var (ascii "LABEL") ≡ none) ⊎ (host.var (ascii "FOLDER") ≡ none)))
    × ((c : ℕ) → (setup host payloads crate fresh).0 ≡ err c → c ≤ 1)
setup-code_example = setup-code host payloads crate fresh

abbrev settings : Settings host.Json
settings = record {
  ctx = ctx;
  kinds = config_map ∷ [];
  namespace = ascii "n";
  request_url = some (ascii "u");
  request_skip_init = true;
  ignore_already_processed = false;
}

ready : (start host cfg in_order 1 settings fresh).1.health.ready ≡ true
unfolding start first_passes run_passes jobs split list_resources notify find_items resource_names
    is_all list_items list_page with_transport_retry retry_from page_of env_u32 env_f64 list_beq
    Option.bind pause apply_items work_items stale_items remove_items
ready = refl

start-Synced_example :
    Synced host cfg in_order 1 ctx
      (pass_url host cfg in_order 1 settings)
      (pass_ignore host cfg in_order 1 settings)
      (jobs settings.kinds settings.namespace)
      (pass_world host cfg in_order 1 settings fresh)
      (config_map, ascii "n")
unfolding split
start-Synced_example =
    start-Synced host cfg in_order 1 settings fresh config_map (ascii "n") refl ready (inl refl)
      (inl refl)

abbrev tasks : List Job
tasks = (config_map, ascii "n") ∷ []

abbrev handed : World host
handed = (start host cfg in_order 1 settings fresh).1

handed-watching : start host cfg in_order 1 settings fresh ≡ (watching tasks, handed)
unfolding start first_passes run_passes jobs split list_resources notify find_items resource_names
    is_all list_items list_page with_transport_retry retry_from page_of env_u32 env_f64 list_beq
    Option.bind pause apply_items work_items stale_items remove_items
handed-watching = refl

-- The world after the task has died, and the monitor's round in it.
abbrev bereft : World host
bereft = record handed { health = lowered handed.health 0 }

abbrev rounded : Option ℕ × World host
rounded = monitor_round host tasks bereft

abbrev code : ℕ
code = 1

ends : Reach host cfg tasks (running handed) (ended code)
unfolding start first_passes run_passes jobs split list_resources notify find_items resource_names
    is_all list_items list_page with_transport_retry retry_from page_of env_u32 env_f64 list_beq
    Option.bind pause apply_items work_items stale_items remove_items monitor_round report_dead
    lower
ends = later (later Reach.start (dies 0)) (stops {w' = rounded.1} refl)

start-ended_example :
    (code ≡ 0)
    ⊎ ((code ≡ 1)
        × ((w' : World host) × Reach host cfg tasks (running handed) (running w')
            × (any_dead w'.health.watchers ≡ true)))
start-ended_example =
    start-ended host cfg in_order 1 settings fresh handed tasks handed-watching ends
