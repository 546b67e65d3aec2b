-- ===== src/Resources/Paging.antt =====
-- src/resources.rs: the paging loop of `list_resources` against the pages that the server sends, and
-- the forms of RESOURCE_NAME.
use mathlib.Core.List.{reverse}
use k8s_sidecar_rs.Base.{
  Text, ℕ, zero, suc, ◌≤◌, false, Option, none, some, List, [], ◌∷◌, ◌++◌, ok, ◌≡◌, ◌≢◌, refl, ap,
  arith, ◌==◌, nat_eq, list_eq, list_beq_iff, list_beq, if◌then◌else◌,
}
use k8s_sidecar_rs.Base.Str.{split, has_char}
use k8s_sidecar_rs.Base.Str.Laws.{split-append, split-piece}
use k8s_sidecar_rs.Kubeapi.Items.{Kind, Item, as_str}
use k8s_sidecar_rs.Kubeapi.Api.{list_page}
use k8s_sidecar_rs.Host.World.{Host, World}
use k8s_sidecar_rs.Http.Auth.{HttpCfg}
use k8s_sidecar_rs.Resources.Update.{Ctx, selector}
use k8s_sidecar_rs.Resources.List.{
  page_limit, list_items, entry_name, entry_names, resource_names, find_items,
}

module _ (H : Host) (cfg : HttpCfg H.F64) (ctx : Ctx H.Json) (kind : Kind)
    (namespace sel : Text) where
  -- From this continue token and world the server sends these items, in so many pages, and the last
  -- page has no token.
  pub data Pages : Option Text → World H → List Item → World H → ℕ → Type 0 where
    last :
        {cont : Option Text} {w w' : World H} {page : List Item}
        → list_page H kind namespace sel page_limit cont w ≡ (ok (page, none), w')
        → Pages cont w page w' 1
    more :
        {cont : Option Text} {w w₁ w' : World H} {page items : List Item} {c : Text} {n : ℕ}
        → list_page H kind namespace sel page_limit cont w ≡ (ok (page, some c), w₁)
        → Pages (some c) w₁ items w' n
        → Pages cont w (page ++ items) w' (suc n)

  -- When the server sends so many pages, each but the last with a continue token, and the fuel is
  -- at least their number, the paging loop ends, and returns the items of all pages in order.
  pub list_items-Pages :
      {cont : Option Text} {w w' : World H} {items : List Item} {n : ℕ}
      → Pages cont w items w' n
      → (fuel : ℕ) → n ≤ fuel
      → list_items H cfg ctx kind namespace fuel sel cont w ≡ (ok items, w')
  unfolding list_items
  list_items-Pages (last e) zero h = absurd (omega arith)
  list_items-Pages (last e) (suc fuel) h = ground arith
  list_items-Pages (more e p) zero h = absurd (omega arith)
  list_items-Pages (more {w₁} {c} e p) (suc fuel) h = ground (arith, list_items-Pages p fuel)

-- The three forms of a RESOURCE_NAME entry, of parts without a slash: `name` gives the name for
-- every kind and namespace, `type/name` gives it for that type only, and `namespace/type/name`
-- gives it for that namespace only, whatever the type is.
pub entry_name-forms :
    (kind : Kind) (namespace name type' ns : Text)
    → has_char b'/' name ≡ false
    → has_char b'/' type' ≡ false
    → has_char b'/' ns ≡ false
    → let chosen = λ (entry : Text). entry_name kind namespace (reverse (split b'/' entry)) in
      (chosen name ≡ some name)
      × (chosen (type' ++ b'/' ∷ name) ≡ (if type' == as_str kind then some name else none))
      × (chosen (ns ++ b'/' ∷ (type' ++ b'/' ∷ name))
          ≡ (if ns == namespace then some name else none))
unfolding entry_name
entry_name-forms kind namespace name type' ns hn ht hs = (
  rw (split-piece b'/' name hn) refl,
  rw (split-append b'/' type' name ht, split-piece b'/' name hn) refl,
  rw
      (
        split-append b'/' ns (type' ++ b'/' ∷ name) hs,
        split-append b'/' type' name ht,
        split-piece b'/' name hn,
      )
      refl,
)

module _ (H : Host) (cfg : HttpCfg H.F64) (ctx : Ctx H.Json) (kind : Kind) (namespace : Text) where
  entry_name-other_type :
      (name type' : Text)
      → has_char b'/' name ≡ false
      → has_char b'/' type' ≡ false
      → type' ≢ as_str kind
      → entry_name kind namespace (reverse (split b'/' (type' ++ b'/' ∷ name))) ≡ none
  unfolding entry_name
  entry_name-other_type name type' hn ht differ =
      rw (split-append b'/' type' name ht, split-piece b'/' name hn)
        (ground (arith, list_beq_iff type' (as_str kind)))

  entry_names-other_type :
      (name type' : Text)
      → has_char b'/' name ≡ false
      → has_char b'/' type' ≡ false
      → type' ≢ as_str kind
      → entry_names kind namespace ((type' ++ b'/' ∷ name) ∷ []) ≡ []
  unfolding entry_names
  entry_names-other_type name type' hn ht differ =
      rw (entry_names, entry_name-other_type name type' hn ht differ) refl

  resource_names-other_type :
      (name type' : Text)
      → ctx.resource_name ≡ type' ++ b'/' ∷ name
      → has_char b',' ctx.resource_name ≡ false
      → has_char b'/' name ≡ false
      → has_char b'/' type' ≡ false
      → type' ≢ as_str kind
      → resource_names kind namespace ctx.resource_name ≡ []
  unfolding resource_names
  resource_names-other_type name type' e one hn ht differ =
      rw
        (
          split-piece b',' ctx.resource_name one,
          ap (λ t. entry_names kind namespace (t ∷ [])) e,
          entry_names-other_type name type' hn ht differ,
        )
        (ground arith)

  -- When RESOURCE_NAME is a single `type/name` of another type than the kind's, `find_items` is
  -- the listing of the namespace by the label selector, as if RESOURCE_NAME were not set.
  pub find_items-fallback :
      (name type' : Text)
      → ctx.resource_name ≡ type' ++ b'/' ∷ name
      → has_char b',' ctx.resource_name ≡ false
      → has_char b'/' name ≡ false
      → has_char b'/' type' ≡ false
      → type' ≢ as_str kind
      → (fuel : ℕ) (w : World H)
      → find_items H cfg ctx kind namespace fuel w
        ≡ list_items H cfg ctx kind namespace fuel (selector ctx) none w
  unfolding find_items list_beq
  find_items-fallback name type' e one hn ht differ fuel w =
      rw (resource_names-other_type name type' e one hn ht differ) (ground arith)
