-- ===== src/Kubeapi/Watch.antt =====
-- src/kubeapi.rs, watch_items: one watch connection. What a stream delivers until the server closes
-- it is a list.
use k8s_sidecar_rs.Base.{Text, ascii, ℕ, Option, none, some, List, [], ◌∷◌, Result, ok, err}
use k8s_sidecar_rs.Kubeapi.Items.{
  Kind, config_map, secret, Item, ConfigMap, Secret, KubeError, api, from_cm, from_secret,
}
use k8s_sidecar_rs.Kubeapi.Api.{scope, on_net}
use k8s_sidecar_rs.Host.World.{Host, Scope}
use k8s_sidecar_rs.Host.Io.{Act, pure, ◌>>=?◌}

-- kube's WatchEvent. The error carries the code and the reason of an answer.
pub data WatchEvent (A : Type 0) : Type 0 where
  added modified deleted : A → WatchEvent A
  bookmark : WatchEvent A
  error : ℕ → Text → WatchEvent A

pub data WatchParams : Type 0 where
  watch_params : (labels : Text) (timeout : ℕ) → WatchParams

-- A delivery of the stream: an event's type and item, or an error.
abbrev pub Delivery : Type 0
Delivery = Result (Text × Item) KubeError

-- kube::Api::watch, from the resource version "" (the current state).
pub record Streams (H : Host) : Type 0 where
  pub watch_config_maps :
      Scope
      → WatchParams
      → Text
      → H.Net
      → Result (List (Result (WatchEvent ConfigMap) KubeError)) KubeError × H.Net
  pub watch_secrets :
      Scope
      → WatchParams
      → Text
      → H.Net
      → Result (List (Result (WatchEvent Secret) KubeError)) KubeError × H.Net

unfoldable pub delivery_of :
    {A : Type 0} → (A → Item) → Result (WatchEvent A) KubeError → Option Delivery
delivery_of from (err e) = some (err e)
delivery_of from (ok (added o)) = some (ok (ascii "ADDED", from o))
delivery_of from (ok (modified o)) = some (ok (ascii "MODIFIED", from o))
delivery_of from (ok (deleted o)) = some (ok (ascii "DELETED", from o))
delivery_of from (ok bookmark) = none
delivery_of from (ok (error code reason)) = some (err (api code reason))

unfoldable pub deliveries :
    {A : Type 0} → (A → Item) → List (Result (WatchEvent A) KubeError) → List Delivery
deliveries from [] = []
deliveries from (ev ∷ evs) =
    let rest = deliveries from evs in elim (delivery_of from ev) [ none ↦ rest | some d ↦ d ∷ rest ]

module _ (H : Host) (S : Streams H) where
  unfoldable pub watch_items : Kind → Text → Text → ℕ → Act H KubeError (List Delivery)
  watch_items config_map ns label_selector timeout_secs =
      on_net H (S.watch_config_maps (scope ns) (watch_params label_selector timeout_secs) [])
      >>=? λ stream. pure (ok (deliveries from_cm stream))
  watch_items secret ns label_selector timeout_secs =
      on_net H (S.watch_secrets (scope ns) (watch_params label_selector timeout_secs) [])
      >>=? λ stream. pure (ok (deliveries from_secret stream))
