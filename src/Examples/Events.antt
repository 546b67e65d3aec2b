-- ===== src/Examples/Events.antt =====
-- The theorems about a watch connection at concrete inputs.
use k8s_sidecar_rs.Base.{
  Text, ascii, true, false, none, List, [], ◌∷◌, ◌≡◌, ◌⊎◌, ◌↔◌, ok, err, Result, refl, nat_eq,
  list_eq, pair_eq, list_beq,
}
use k8s_sidecar_rs.Base.Dict
use k8s_sidecar_rs.Kubeapi.Items
use k8s_sidecar_rs.Kubeapi.Items.{config_map, kind_eq, KubeError, api, Item}
use k8s_sidecar_rs.Kubeapi.Watch.{Delivery}
use k8s_sidecar_rs.Host.Memory.{host}
use k8s_sidecar_rs.Resources.Process.{key_of}
use k8s_sidecar_rs.Resources.List.{WErr, kube, out_of_fuel}
use k8s_sidecar_rs.Resources.Watch.{on_event, watch_events, on_result, dies}
use k8s_sidecar_rs.Resources.Events.{on_event-object}
use k8s_sidecar_rs.Resources.Skips.{on_event-again}
use k8s_sidecar_rs.Resources.Watcher.{watch_events-ready, on_result-dies}
use k8s_sidecar_rs.Examples.Data.{cfg, ctx, item, start}

on_event-object_example :
    Dict.get
      (on_event host cfg ctx config_map none false (ascii "DELETED") item start).1.maps.object
      (key_of config_map item)
    ≡ none
unfolding list_beq Items.key
on_event-object_example =
    on_event-object host cfg ctx config_map none false (ascii "DELETED") item start
      (key_of config_map item)

on_event-again_example :
    let w₁ = (on_event host cfg ctx config_map none true (ascii "ADDED") item start).1 in
    let (r, w₂) = on_event host cfg ctx config_map none true (ascii "ADDED") item w₁ in
    (r ≡ ok tt)
    × (w₂.disk ≡ w₁.disk)
    × (w₂.net ≡ w₁.net)
    × (w₂.maps ≡ w₁.maps)
    × (w₂.health ≡ w₁.health)
unfolding list_beq
on_event-again_example =
    on_event-again host cfg ctx config_map none (ascii "ADDED") (ascii "ADDED") item item start refl
      refl refl refl

-- The resource is added, delivered again as after a reconnect, and deleted; then the stream breaks.
abbrev deliveries : List Delivery
deliveries =
    ok (ascii "ADDED", item)
    ∷ ok (ascii "ADDED", item)
    ∷ ok (ascii "DELETED", item)
    ∷ err (api 410 (ascii "Gone"))
    ∷ []

watch_events-ready_example :
    (watch_events host cfg ctx config_map none false true
      (ok (ascii "ADDED", item) ∷ [])
      start).1.health.ready
    ≡ true
watch_events-ready_example =
    watch_events-ready host cfg ctx config_map none false (ascii "ADDED") item [] start

abbrev gone : Result Unit WErr
gone = err (kube (api 410 (ascii "Gone")))

on_result-dies_example :
    ((on_result host gone start).0 ≡ dies)
    ↔ (((reason : Text) × (gone ≡ err (kube (api 500 reason)))) ⊎ (gone ≡ err out_of_fuel))
on_result-dies_example = on_result-dies host gone start
