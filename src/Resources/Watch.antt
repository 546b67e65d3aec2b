-- ===== src/Resources/Watch.antt =====
-- src/resources.rs: `watch_resource_iterator`, one watch connection, and `watch_task`, the loop
-- around it. The tasks' steps are those of one task; what others do between two deliveries is not in
-- this run, and the theorems about one delivery hold in every world.
use k8s_sidecar_rs.Base.{
  Text, ascii, ℕ, zero, suc, ◌%◌, Bool, true, false, not, ◌||◌, ◌&&◌, Option, none, some, List, [],
  ◌∷◌, ◌++◌, Result, ok, err, ◌==◌, nat_eq, list_eq, pair_eq, if◌then◌else◌,
}
use k8s_sidecar_rs.Base.Dict
use k8s_sidecar_rs.Base.Number.{decimal, u32_limit}
use k8s_sidecar_rs.Kubeapi.Items.{Kind, kind_eq, Item, as_str, api, transport}
use k8s_sidecar_rs.Kubeapi.Watch.{Streams, Delivery, watch_items}
use k8s_sidecar_rs.Health.Status
use k8s_sidecar_rs.Health.Status.{Health}
use k8s_sidecar_rs.Host.World.{Host, slept_secs}
use k8s_sidecar_rs.Host.Env.{env_u64}
use k8s_sidecar_rs.Host.Io.{Io, Act, pure, tell, ◌>>=◌, ◌>>◌, ◌>>=?◌, debug, error}
use k8s_sidecar_rs.Http.Auth.{HttpCfg}
use k8s_sidecar_rs.Resources.Cache.{CachedItem, Maps, Key}
use k8s_sidecar_rs.Resources.Update.{Ctx, selector, get_destination_folder}
use k8s_sidecar_rs.Resources.Process.{process_resource, key_of}
use k8s_sidecar_rs.Resources.List.{
  WErr, kube, other, out_of_fuel, is_all, is_processed, set_version, notify, list_resources,
}

pub watching_msg : Kind → Text → Text → ℕ → ℕ → Text
watching_msg kind namespace sel server_timeout client_timeout =
    ascii "Performing watch-based sync on "
    ++ as_str kind
    ++ ascii " resources: {'label_selector': '"
    ++ sel
    ++ ascii "', 'timeout_seconds': "
    ++ decimal server_timeout
    ++ ascii ", '_request_timeout': "
    ++ decimal client_timeout
    ++ (if namespace == ascii "ALL" then [] else ascii ", 'namespace': '" ++ namespace ++ ascii "'")
    ++ ascii "}"

pub event_msg : Text → Text → Kind → Item → Text
event_msg verb event_type kind item =
    verb
    ++ event_type
    ++ ascii " "
    ++ as_str kind
    ++ ascii " "
    ++ item.namespace
    ++ ascii "/"
    ++ item.name

abbrev pub is_upsert : Text → Bool
is_upsert event_type = event_type == ascii "ADDED" || event_type == ascii "MODIFIED"

abbrev pub is_deleted : Text → Bool
is_deleted event_type = event_type == ascii "DELETED"

-- `m.version.remove(&k)`
unfoldable pub forget_version : Maps → Kind → Item → Maps
forget_version m kind item = record m { version = Dict.remove m.version (key_of kind item) }

-- The block under the lock: whether to skip the event, and the maps after it.
unfoldable pub skip_event : Maps → Kind → Text → Item → Bool
skip_event m kind event_type item = is_processed m kind item && is_upsert event_type

unfoldable pub note_event : Maps → Kind → Text → Item → Maps
note_event m kind event_type item =
    if is_processed m kind item
    then (if is_upsert event_type
        then m
        else if is_deleted event_type
        then forget_version m kind item
        else m)
    else if is_upsert event_type
    then set_version m kind item
    else m

-- The first delivery marks the sidecar ready, and each one is a contact.
unfoldable pub on_contact : (H : Host) → Bool → Io H Unit
on_contact H first_event w =
    let health = if first_event then Status.mark_ready w.health else w.health in
    (tt, record w { health = Status.update_k8s_contact (H.elapsed_ms w.net) health })

module _ (H : Host) (cfg : HttpCfg H.F64) (ctx : Ctx H.Json) (kind : Kind)
    (request_url : Option Text) where
  unfoldable pub work_event : Text → Item → Act H WErr Unit
  work_event event_type item =
      debug H (event_msg (ascii "Working on ") event_type kind item)
      >> get_destination_folder H item ctx
      >>= λ dest.
          process_resource H cfg ctx kind item (some dest) (is_deleted event_type)
          >>= λ files_changed. notify H cfg ctx files_changed request_url

  unfoldable pub on_event : Bool → Text → Item → Act H WErr Unit
  on_event ignore_already_processed event_type item w =
      if ignore_already_processed
      then (if skip_event w.maps kind event_type item
          then (debug H (event_msg (ascii "Ignoring ") event_type kind item) >> pure (ok tt))
              (record w { maps = note_event w.maps kind event_type item })
          else work_event event_type item
              (record w { maps = note_event w.maps kind event_type item }))
      else work_event event_type item w

  unfoldable pub watch_events : Bool → Bool → List Delivery → Act H WErr Unit
  watch_events ignore first_event [] = pure (ok tt)
  watch_events ignore first_event (err e ∷ events) = pure (err (kube e))
  watch_events ignore first_event (ok (event_type, item) ∷ events) =
      on_contact H first_event >> on_event ignore event_type item >>=? λ u.
      watch_events ignore false events

  unfoldable pub watch_resource_iterator : Streams H → Text → Bool → Act H WErr Unit
  watch_resource_iterator S namespace ignore_already_processed w =
      let sel = selector ctx in
      let msg = watching_msg kind namespace sel ctx.watch_server_timeout ctx.watch_client_timeout in
      let (got, w') =
        watch_items H S kind namespace sel (ctx.watch_server_timeout % u32_limit)
          (debug H msg w).1 in
      elim got [
        | ok events ↦ watch_events ignore_already_processed true events w'
        | err e ↦ (err (kube e), w')
      ]

-- How a round of the task ends: the loop goes on, or the watcher dies.
pub data Round : Type 0 where
  again dies : Round

pub api_msg : ℕ → Text → Text
api_msg code reason =
    ascii "ApiException when calling kubernetes: (" ++ decimal code ++ ascii ") Reason: " ++ reason

pub protocol_msg : Text → Text
protocol_msg message = ascii "ProtocolError when calling kubernetes: " ++ message ++ ascii "\n"

pub unknown_msg : Text → Text
unknown_msg message = ascii "Received unknown exception: " ++ message ++ ascii "\n"

module _ (H : Host) where
  unfoldable pub sleep_secs : ℕ → Io H Unit
  sleep_secs n = tell H (slept_secs n)

  unfoldable pub throttle : Io H Unit
  throttle = sleep_secs (env_u64 H (ascii "ERROR_THROTTLE_SLEEP") 5)

  -- `out_of_fuel` is no outcome of the code: the model stops there.
  unfoldable pub on_result : Result Unit WErr → Io H Round
  on_result (ok u) = pure again
  on_result (err (kube (api code reason))) =
      if code == 500
      then (error H (api_msg code reason) >> pure dies)
      else (error H (api_msg code reason ++ ascii "\n") >> throttle >> pure again)
  on_result (err (kube (transport message))) =
      error H (protocol_msg message) >> throttle >> pure again
  on_result (err (other message)) = error H (unknown_msg message) >> throttle >> pure again
  on_result (err out_of_fuel) = pure dies

abbrev is_mode : Option Text → Text → Bool
is_mode none mode = false
is_mode (some m) mode = m == mode

-- `alive.store(false)` of the task at this place.
unfoldable pub lower : List Bool → ℕ → List Bool
lower [] i = []
lower (alive ∷ flags) zero = false ∷ flags
lower (alive ∷ flags) (suc i) = alive ∷ lower flags i

abbrev pub lowered : Health → ℕ → Health
lowered h i = record h { watchers = lower h.watchers i }

-- The loop never ends while the task lives: `fuel` is the number of rounds to run. `alive` is the
-- place of the task's flag.
module _ (H : Host) (cfg : HttpCfg H.F64) (ctx : Ctx H.Json) (S : Streams H)
    (order : List (Key × CachedItem) → List (Key × CachedItem)) (page_fuel : ℕ) (kind : Kind)
    (namespace : Text) (request_url : Option Text) (ignore_already_processed : Bool) where
  unfoldable pub sleep_mode : Bool
  sleep_mode =
      is_mode ctx.mode (ascii "SLEEP") || (not (is_all namespace) && not (ctx.resource_name == []))

  unfoldable pub watch_round : Act H WErr Unit
  watch_round =
      if sleep_mode
      then (list_resources H cfg ctx order page_fuel kind namespace request_url
            ignore_already_processed
          >>=? λ u. sleep_secs H (env_u64 H (ascii "SLEEP_TIME") 60) >> pure (ok tt))
      else watch_resource_iterator H cfg ctx kind request_url S namespace ignore_already_processed

  unfoldable pub watch_task : ℕ → ℕ → Io H Round
  watch_task alive zero w = (again, w)
  watch_task alive (suc fuel) w =
      let (next, w') = (watch_round >>= on_result H) w in
      let rest = watch_task alive fuel w' in
      elim next [ dies ↦ (dies, record w' { health = lowered w'.health alive }) | again ↦ rest ]
