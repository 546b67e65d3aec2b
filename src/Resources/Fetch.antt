-- ===== src/Resources/Fetch.antt =====
-- src/resources.rs, list_resources: finding the items changes neither the maps nor the health state.
use k8s_sidecar_rs.Base.{
  Text, ℕ, zero, suc, ◌+◌, not, ◌&&◌, Option, none, some, List, [], ◌∷◌, Result, ok, ◌≡◌, refl, inl,
  inr, arith, Bool-cases, ◌==◌, nat_eq, list_eq,
}
use k8s_sidecar_rs.Kubeapi.Items.{Kind, config_map, secret, KubeError}
use k8s_sidecar_rs.Kubeapi.Api.{list_page, read_named, on_net}
use k8s_sidecar_rs.Kubeapi.Retry.{retry_from, with_transport_retry}
use k8s_sidecar_rs.Host.World.{Host, World}
use k8s_sidecar_rs.Host.Backoff.{pause}
use k8s_sidecar_rs.Host.Io.{Act, pure, ◌>>=?◌, continue-keeps}
use k8s_sidecar_rs.Http.Auth.{HttpCfg}
use k8s_sidecar_rs.Resources.Update.{Ctx}
use k8s_sidecar_rs.Resources.Frame.{kept}
use k8s_sidecar_rs.Resources.List.{
  page_limit, find_items, read_items, list_items, resource_names, is_all,
}

module _ (H : Host) (cfg : HttpCfg H.F64) where
  kept-pause : (b : H.F64) (n : ℕ) (w : World H) → kept H cfg (pause H b n w).1 ≡ kept H cfg w
  unfolding pause
  kept-pause b n w = ground arith

  kept-retry_from :
      {A : Type 0} (op : Act H KubeError A)
      → ((w : World H) → kept H cfg (op w).1 ≡ kept H cfg w)
      → (backoff : H.F64) (left attempt : ℕ) (w : World H)
      → kept H cfg (retry_from H op backoff left attempt w).1 ≡ kept H cfg w
  unfolding retry_from
  kept-retry_from op same backoff zero attempt w = same w
  kept-retry_from op same backoff (suc left) attempt w = ground (
    arith,
    same w,
    kept-pause backoff (attempt + 1) (op w).1,
    kept-retry_from op same backoff left (attempt + 1) (pause H backoff (attempt + 1) (op w).1).1,
  )

  kept-call :
      {A B : Type 0} (call : H.Net → Result A KubeError × H.Net) (f : A → B) (w : World H)
      → kept H cfg
          ((with_transport_retry H (on_net H call) >>=? λ x.
              pure {H = H} {A = Result B KubeError} (ok (f x)))
            w).1
        ≡ kept H cfg w
  unfolding with_transport_retry
  kept-call call f w =
      let got = with_transport_retry H (on_net H call) w in
      let same = kept-retry_from (on_net H call) (λ v. refl) _ _ 0 w in
      continue-keeps (λ v. kept H cfg v ≡ kept H cfg w) got.0 (λ x. pure (ok (f x))) got.1 same
        (λ x. same)

  kept-list_page :
      (kind : Kind) (ns sel : Text) (limit : ℕ) (cont : Option Text) (w : World H)
      → kept H cfg (list_page H kind ns sel limit cont w).1 ≡ kept H cfg w
  unfolding list_page
  kept-list_page config_map ns sel limit cont w = kept-call _ _ w
  kept-list_page secret ns sel limit cont w = kept-call _ _ w

  kept-read_named :
      (kind : Kind) (ns name : Text) (w : World H)
      → kept H cfg (read_named H kind ns name w).1 ≡ kept H cfg w
  unfolding read_named
  kept-read_named config_map ns name w = kept-call _ _ w
  kept-read_named secret ns name w = kept-call _ _ w

module _ (H : Host) (cfg : HttpCfg H.F64) (ctx : Ctx H.Json) (kind : Kind) (namespace : Text) where
  kept-read_items :
      (names : List Text) (w : World H)
      → kept H cfg (read_items H cfg ctx kind namespace names w).1 ≡ kept H cfg w
  unfolding read_items
  kept-read_items [] w = refl
  kept-read_items (rn ∷ names) w = ground (
    arith,
    kept-read_named H cfg kind namespace rn w,
    kept-read_items names (read_named H kind namespace rn w).1,
  )

  kept-list_items :
      (fuel : ℕ) (sel : Text) (cont : Option Text) (w : World H)
      → kept H cfg (list_items H cfg ctx kind namespace fuel sel cont w).1 ≡ kept H cfg w
  unfolding list_items
  kept-list_items zero sel cont w = refl
  kept-list_items (suc fuel) sel cont w =
      let w' = (list_page H kind namespace sel page_limit cont w).1 in
      grind (
        arith,
        kept-list_page H cfg kind namespace sel page_limit cont w,
        (λ (c : Text). kept-list_items fuel sel (some c) w'),
      )

  pub kept-find_items :
      (fuel : ℕ) (w : World H)
      → kept H cfg (find_items H cfg ctx kind namespace fuel w).1 ≡ kept H cfg w
  unfolding find_items
  kept-find_items fuel w =
      elim (Bool-cases
        (not (is_all namespace) && not (resource_names kind namespace ctx.resource_name == []))) [
          | inl named ↦ rw named (kept-read_items _ w)
          | inr listed ↦ rw listed (kept-list_items fuel _ none w)
        ]
