-- ===== src/Kubeapi/Api.antt =====
-- src/kubeapi.rs: listing and reading, uniform over the two kinds.
use mathlib.Core.Option
use k8s_sidecar_rs.Base.{
  Text, ascii, ℕ, not, Option, List, [], map, ◌==◌, nat_eq, list_eq, Result, ok, filter_option,
  if◌then◌else◌,
}
use k8s_sidecar_rs.Kubeapi.Items.{Kind, config_map, secret, Item, KubeError, from_cm, from_secret}
use k8s_sidecar_rs.Kubeapi.Retry.{with_transport_retry}
use k8s_sidecar_rs.Host.World.{Host, Scope, all, namespaced, ListParams, Page}
use k8s_sidecar_rs.Host.Io.{Act, pure, ◌>>=?◌}

-- cm_api and secret_api.
unfoldable pub scope : Text → Scope
scope ns = if ns == ascii "ALL" then all else namespaced ns

unfoldable pub list_params : Text → ℕ → Option Text → ListParams
list_params label_selector limit cont = record {
  labels = label_selector;
  limit = limit;
  continue_token = cont;
}

-- The items of a page and its continue token, unless that is empty.
unfoldable pub page_of : {A : Type 0} → (A → Item) → Page A → List Item × Option Text
page_of from page =
    (map from page.items, filter_option (λ (c : Text). not (c == [])) page.continue_)

module _ (H : Host) where
  -- A call of the API, in the world.
  abbrev pub on_net : {A : Type 0} → (H.Net → Result A KubeError × H.Net) → Act H KubeError A
  on_net call w = let (r, n) = call w.net in (r, record w { net = n })

  unfoldable pub list_page :
      Kind → Text → Text → ℕ → Option Text → Act H KubeError (List Item × Option Text)
  list_page config_map ns label_selector limit cont =
      with_transport_retry H
        (on_net (H.list_config_maps (scope ns) (list_params label_selector limit cont)))
      >>=? λ page. pure (ok (page_of from_cm page))
  list_page secret ns label_selector limit cont =
      with_transport_retry H
        (on_net (H.list_secrets (scope ns) (list_params label_selector limit cont)))
      >>=? λ page. pure (ok (page_of from_secret page))

  unfoldable pub read_named : Kind → Text → Text → Act H KubeError (Option Item)
  read_named config_map ns name =
      with_transport_retry H (on_net (H.get_config_map (scope ns) name)) >>=? λ got.
      pure (ok (Option.map from_cm got))
  read_named secret ns name =
      with_transport_retry H (on_net (H.get_secret (scope ns) name)) >>=? λ got.
      pure (ok (Option.map from_secret got))
