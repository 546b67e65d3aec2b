-- ===== src/Resources/List.antt =====
-- src/resources.rs: `list_resources`, one list-based sync pass. Paging is a loop that ends when the
-- server sends no continue token: it takes fuel, and `out_of_fuel` is the model's own outcome. The
-- order in which a `HashMap` is walked is a parameter.
use mathlib.Core.List.{reverse}
use k8s_sidecar_rs.Base.{
  Text, ascii, ℕ, zero, suc, Bool, true, false, not, ◌||◌, ◌&&◌, Option, none, some, List, [], ◌∷◌,
  ◌++◌, map, ok, err, map_err, contains, ◌==◌, nat_eq, list_eq, pair_eq, if◌then◌else◌,
}
use k8s_sidecar_rs.Base.Str.{split}
use k8s_sidecar_rs.Base.Dict
use k8s_sidecar_rs.Base.Dict.{Dict}
use k8s_sidecar_rs.Kubeapi.Items.{Kind, kind_eq, Item, as_str, KubeError}
use k8s_sidecar_rs.Kubeapi.Items
use k8s_sidecar_rs.Kubeapi.Api.{list_page, read_named}
use k8s_sidecar_rs.Host.World.{Host}
use k8s_sidecar_rs.Host.Io.{Io, Act, pure, ◌>>=◌, ◌>>◌, ◌>>=?◌, debug, info}
use k8s_sidecar_rs.Http.Auth.{HttpCfg}
use k8s_sidecar_rs.Http.Request.{request}
use k8s_sidecar_rs.Script.{execute}
use k8s_sidecar_rs.Resources.Cache.{CachedItem, Maps, Key, to_removal_item}
use k8s_sidecar_rs.Resources.Update.{Ctx, selector, get_destination_folder}
use k8s_sidecar_rs.Resources.Process.{process_resource, key_of}

pub data WErr : Type 0 where
  kube : KubeError → WErr
  other : Text → WErr
  out_of_fuel : WErr

pub sync_msg : Kind → Text → Text
sync_msg kind namespace =
    ascii "Performing list-based sync on "
    ++ as_str kind
    ++ ascii " resources: "
    ++ (if namespace == ascii "ALL"
        then ascii "{}"
        else ascii "{'namespace': '" ++ namespace ++ ascii "'}")

pub item_msg : Text → Text → Kind → Item → Text
item_msg verb separator kind item =
    verb ++ as_str kind ++ separator ++ item.namespace ++ ascii "/" ++ item.name

pub page_limit : ℕ
page_limit = 5

-- One RESOURCE_NAME entry, split at `/` and reversed.
unfoldable pub entry_name : Kind → Text → List Text → Option Text
entry_name kind namespace [] = none
entry_name kind namespace (name ∷ []) = some name
entry_name kind namespace (name ∷ type' ∷ []) = if type' == as_str kind then some name else none
entry_name kind namespace (name ∷ type' ∷ ns ∷ []) = if ns == namespace then some name else none
entry_name kind namespace (name ∷ type' ∷ ns ∷ more ∷ rest) = some name

unfoldable pub entry_names : Kind → Text → List Text → List Text
entry_names kind namespace [] = []
entry_names kind namespace (rn ∷ entries) =
    let rest = entry_names kind namespace entries in
    elim (entry_name kind namespace (reverse (split b'/' rn))) [
      | none ↦ rest
      | some name ↦ name ∷ rest
    ]

unfoldable pub is_all : Text → Bool
is_all namespace = namespace == ascii "ALL"

unfoldable pub resource_names : Kind → Text → Text → List Text
resource_names kind namespace resource_name =
    if not (is_all namespace) && not (resource_name == [])
    then entry_names kind namespace (split b',' resource_name)
    else []

-- An entry of the object map that this pass has to remove.
unfoldable pub is_stale : Kind → Text → List Text → Key × CachedItem → Bool
is_stale kind namespace exist_keys ((k, key), cached) =
    k == kind
    && (is_all namespace || cached.namespace == namespace)
    && not (contains exist_keys key)

unfoldable pub stale_items : Kind → Text → List Text → List (Key × CachedItem) → List Item
stale_items kind namespace exist_keys [] = []
stale_items kind namespace exist_keys (entry ∷ entries) =
    let rest = stale_items kind namespace exist_keys entries in
    if is_stale kind namespace exist_keys entry then to_removal_item entry.1 ∷ rest else rest

-- `m.version.get(&k) == Some(&item.resource_version)`
abbrev pub is_version : Option Text → Text → Bool
is_version none resource_version = false
is_version (some v) resource_version = v == resource_version

unfoldable pub is_processed : Maps → Kind → Item → Bool
is_processed m kind item = is_version (Dict.get m.version (key_of kind item)) item.resource_version

unfoldable pub set_version : Maps → Kind → Item → Maps
set_version m kind item = record m {
  version = Dict.insert m.version (key_of kind item) item.resource_version;
}

module _ (H : Host) (cfg : HttpCfg H.F64) (ctx : Ctx H.Json) (kind : Kind) (namespace : Text) where
  unfoldable pub read_items : List Text → Act H WErr (List Item)
  read_items [] w = (ok [], w)
  read_items (rn ∷ names) w =
      let (got, w') = read_named H kind namespace rn w in
      let rest = read_items names w' in
      elim got [
        | err e ↦ (err (kube e), w')
        | ok none ↦ rest
        | ok (some item) ↦ (elim rest.0 [ ok items ↦ ok (item ∷ items) | err e ↦ err e ], rest.1)
      ]

  unfoldable pub list_items : ℕ → Text → Option Text → Act H WErr (List Item)
  list_items zero sel cont w = (err out_of_fuel, w)
  list_items (suc fuel) sel cont w =
      let (got, w') = list_page H kind namespace sel page_limit cont w in
      elim got [
        | err e ↦ (err (kube e), w')
        | ok (page, none) ↦ (ok page, w')
        | ok (page, some c) ↦
            let rest = list_items fuel sel (some c) w' in
            (elim rest.0 [ ok items ↦ ok (page ++ items) | err e ↦ err e ], rest.1)
      ]

  unfoldable pub find_items : ℕ → Act H WErr (List Item)
  find_items fuel =
      let names = resource_names kind namespace ctx.resource_name in
      if not (is_all namespace) && not (names == [])
      then read_items names
      else list_items fuel (selector ctx) none

  -- One item of the pass, once its version is recorded.
  unfoldable pub sync_item : Item → Io H Bool
  sync_item item =
      debug H (item_msg (ascii "Working on ") (ascii ": ") kind item)
      >> get_destination_folder H item ctx
      >>= λ dest. process_resource H cfg ctx kind item (some dest) false

  unfoldable pub work_item : Bool → Item → Io H Bool
  work_item ignore_already_processed item w =
      if ignore_already_processed
      then (if is_processed w.maps kind item
          then (debug H (item_msg (ascii "Ignoring ") (ascii " ") kind item) >> pure false) w
          else sync_item item (record w { maps = set_version w.maps kind item }))
      else sync_item item w

  -- The loop over the items, from the value of `files_changed`.
  unfoldable pub work_items : Bool → Bool → List Item → Io H Bool
  work_items ignore_already_processed changed [] w = (changed, w)
  work_items ignore_already_processed changed (item ∷ items) w =
      let (b, w') = work_item ignore_already_processed item w in
      work_items ignore_already_processed (changed || b) items w'

  unfoldable pub remove_items : Bool → List Item → Io H Bool
  remove_items changed [] w = (changed, w)
  remove_items changed (item ∷ items) w =
      let (b, w') =
        process_resource H cfg ctx kind item none true
          (debug H (item_msg (ascii "Removing ") (ascii ": ") kind item) w).1 in
      remove_items (changed || b) items w'

-- SCRIPT and REQ_URL, which the sync pass and the watch loop run alike.
module _ (H : Host) (cfg : HttpCfg H.F64) (ctx : Ctx H.Json) where
  abbrev pub run_script : Option Text → Act H WErr Unit
  run_script none = pure (ok tt)
  run_script (some s) = execute H s >>= λ r. pure (map_err other r)

  abbrev pub call_url : Option Text → Io H Unit
  call_url none = pure tt
  call_url (some url) =
      request H cfg (some url) ctx.req_method ctx.enable_5xx ctx.req_payload >>= λ resp. pure tt

  unfoldable pub notify : Bool → Option Text → Act H WErr Unit
  notify files_changed request_url =
      if files_changed
      then (run_script ctx.script >>=? λ u. call_url request_url >>= λ v. pure (ok tt))
      else pure (ok tt)

module _ (H : Host) (cfg : HttpCfg H.F64) (ctx : Ctx H.Json)
    (order : List (Key × CachedItem) → List (Key × CachedItem)) where
  -- The part of the pass after the items have been fetched, up to the notifications.
  unfoldable pub apply_items : Kind → Text → Bool → List Item → Io H Bool
  apply_items kind namespace ignore_already_processed items w =
      let (changed, w') =
        work_items H cfg ctx kind namespace ignore_already_processed false items w in
      remove_items H cfg ctx kind namespace changed
        (stale_items kind namespace (map Items.key items) (order w'.maps.object)) w'

  unfoldable pub list_resources : ℕ → Kind → Text → Option Text → Bool → Act H WErr Unit
  list_resources fuel kind namespace request_url ignore_already_processed =
      info H (sync_msg kind namespace) >> find_items H cfg ctx kind namespace fuel >>=? λ items.
      (apply_items kind namespace ignore_already_processed items >>= λ files_changed.
      notify H cfg ctx files_changed request_url)
