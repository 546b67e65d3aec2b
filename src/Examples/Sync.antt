-- ===== src/Examples/Sync.antt =====
-- The theorems about the sync pass at concrete inputs.
use k8s_sidecar_rs.Base.{
  Text, ascii, true, false, none, some, Option, List, [], ◌∷◌, map, ◌≡◌, ◌↔◌, inr, ok, Result, refl,
  arith, nat_eq, list_eq, pair_eq, list_beq, contains,
}
use k8s_sidecar_rs.Base.Dict
use k8s_sidecar_rs.Base.Dict.{In}
use k8s_sidecar_rs.Base.Str.{has_char, strip_suffix, starts_with, ends_with}
use k8s_sidecar_rs.Kubeapi.Items.{
  Kind, config_map, secret, kind_eq, as_str, Item, from_cm, ConfigMap, KubeError,
}
use k8s_sidecar_rs.Kubeapi.Items
use mathlib.Core.Option
use k8s_sidecar_rs.Kubeapi.Api.{list_page, page_of}
use k8s_sidecar_rs.Kubeapi.Retry.{with_transport_retry, retry_from}
use k8s_sidecar_rs.Host.Env.{env_u32, env_f64}
use k8s_sidecar_rs.Host.Backoff.{pause}
use k8s_sidecar_rs.Resources.Paging.{Pages, last, more, list_items-Pages, find_items-fallback}
use k8s_sidecar_rs.Host.World.{World, Page}
use k8s_sidecar_rs.Host.Memory.{host, memory_laws, world_of, quiet}
use k8s_sidecar_rs.Files.{
  join, ensure_folder, is_unchanged, write_now, apply_mode, default_file_mode, write_in_folder,
  write_data_to_file,
}
use k8s_sidecar_rs.Resources.Cache.{CachedItem, Key, from_item, url_suffix}
use k8s_sidecar_rs.Resources.Update.{text, update_file, file_data, final_name, store, selector}
use k8s_sidecar_rs.Resources.Process.{process_resource, remember, key_of}
use k8s_sidecar_rs.Resources.List.{
  apply_items, work_items, work_item, remove_items, stale_items, is_stale, is_all, find_items,
  list_items, is_processed, set_version, page_limit,
}
use k8s_sidecar_rs.Resources.Maps.{IsWellFormed, nil-IsWellFormed, remember-IsWellFormed}
use k8s_sidecar_rs.Resources.Removal.{recalled, process_resource-recalled}
use k8s_sidecar_rs.Resources.Content.{update_file-written}
use k8s_sidecar_rs.Resources.Stale.{found, IsGone, remove_items-stale}
use k8s_sidecar_rs.Resources.Pass.{apply_items-no_stale, apply_items-other_namespace}
use k8s_sidecar_rs.Examples.Data.{cfg, ctx, ctx_for, item, start, in_order, texts_differ}

process_resource-recalled_example :
    process_resource host cfg ctx config_map (recalled item) none true start
    ≡ process_resource host cfg ctx config_map item none true start
process_resource-recalled_example =
    process_resource-recalled host cfg ctx config_map item none start

update_file-written_example :
    memory_laws.content
      (update_file host cfg
        (ascii "f")
        (text (ascii "new"))
        (ascii "/data")
        item
        config_map
        ctx
        (ascii "ascii")
        false
        start).1.disk
      (join (ascii "/data") (final_name host cfg ctx item config_map (ascii "f")))
    ≡ some (ascii "new")
unfolding update_file file_data final_name store strip_suffix url_suffix write_data_to_file
    ensure_folder write_in_folder is_unchanged write_now apply_mode default_file_mode join
    Dict.contains_key Dict.get list_beq ends_with starts_with contains
update_file-written_example =
    update_file-written host cfg memory_laws (ascii "f") (text (ascii "new")) (ascii "/data") item
      config_map ctx (ascii "ascii") start refl refl

-- A world that knows one resource, of namespace `n`.
abbrev known : World host
known = record start { maps = remember start.maps config_map item none false }

known-IsWellFormed : IsWellFormed known.maps.object
known-IsWellFormed = remember-IsWellFormed start.maps config_map item none false nil-IsWellFormed

walk : (m : Dict.Dict Key CachedItem) (x : Key × CachedItem) → In x (in_order m) ↔ In x m
walk m x = (λ i. i, λ i. i)

abbrev item_key : Key
item_key = key_of config_map item

remove_items-stale_example :
    (found host cfg ctx config_map
        (ascii "n")
        (remove_items host cfg ctx config_map
          (ascii "n")
          false
          (stale_items config_map (ascii "n") [] (in_order known.maps.object))
          known).1
        item_key
      ≡ some (from_item item))
    ↔ ((found host cfg ctx config_map (ascii "n") known item_key ≡ some (from_item item))
        × (IsGone host cfg ctx config_map (ascii "n") [] item_key (from_item item) → ⊥))
remove_items-stale_example =
    remove_items-stale host cfg ctx config_map (ascii "n") [] in_order walk false known item_key
      (from_item item) known-IsWellFormed

-- A world that has also recorded the resource's version.
abbrev seen : World host
seen = record known { maps = set_version known.maps config_map item }

seen-IsWellFormed : IsWellFormed seen.maps.object
unfolding set_version
seen-IsWellFormed = known-IsWellFormed

apply_items-no_stale_example : contains (map Items.key (item ∷ [])) (ascii "na") ≡ true
unfolding apply_items work_items work_item is_processed set_version stale_items is_stale is_all
    remove_items contains Dict.get Dict.insert Dict.remove list_beq Items.key remember from_item
apply_items-no_stale_example =
    apply_items-no_stale host cfg ctx in_order walk config_map (ascii "n") true (item ∷ []) seen
      seen-IsWellFormed item_key (from_item item) refl refl (inr refl)

apply_items-other_namespace_example :
    Dict.get
      (apply_items host cfg ctx in_order config_map (ascii "m") false [] known).1.maps.object
      item_key
    ≡ some (from_item item)
unfolding Dict.get Dict.insert Dict.remove list_beq Items.key remember from_item contains
apply_items-other_namespace_example =
    apply_items-other_namespace host cfg ctx in_order walk config_map (ascii "m") false [] known
      known-IsWellFormed item_key (from_item item) (texts_differ (ascii "m") (ascii "ALL") refl)
      refl (texts_differ (ascii "n") (ascii "m") refl) refl

find_items-fallback_example :
    find_items host cfg (ctx_for (ascii "secret/r")) config_map (ascii "n") 3 start
    ≡ list_items host cfg
        (ctx_for (ascii "secret/r"))
        config_map
        (ascii "n")
        3
        (ascii "app")
        none
        start
unfolding has_char as_str selector list_beq
find_items-fallback_example =
    find_items-fallback host cfg (ctx_for (ascii "secret/r")) config_map (ascii "n") (ascii "r")
      (ascii "secret") refl refl refl refl (texts_differ (ascii "secret") (ascii "configmap") refl)
      3 start

abbrev config_map_of : Text → ConfigMap
config_map_of name = record {
  metadata = record {
    namespace = some (ascii "n");
    name = some name;
    resource_version = none;
    annotations = none;
  };
  values = none;
  binary_data = none;
}

abbrev paged : List (Result (Page ConfigMap) KubeError) → World host
paged pages = world_of [] (record quiet { config_map_pages = pages })

abbrev two_pages : World host
two_pages = paged (
    ok (record { items = config_map_of (ascii "a") ∷ []; continue_ = some (ascii "c") })
    ∷ ok (record { items = config_map_of (ascii "b") ∷ []; continue_ = some [] })
    ∷ [])

abbrev page_at : Option Text → World host → Result (List Item × Option Text) KubeError × World host
page_at cont w = list_page host config_map (ascii "n") (ascii "app") page_limit cont w

abbrev second : World host
second = (page_at none two_pages).1

pages :
    Pages host cfg ctx config_map
      (ascii "n")
      (ascii "app")
      none
      two_pages
      (from_cm (config_map_of (ascii "a")) ∷ from_cm (config_map_of (ascii "b")) ∷ [])
      (page_at (some (ascii "c")) second).1
      2
unfolding list_page with_transport_retry retry_from page_of env_u32 env_f64 list_beq Option.bind
    pause from_cm
pages = more refl (last refl)

list_items-Pages_example :
    list_items host cfg ctx config_map (ascii "n") 2 (ascii "app") none two_pages ≡ (
      ok (from_cm (config_map_of (ascii "a")) ∷ from_cm (config_map_of (ascii "b")) ∷ []),
      (page_at (some (ascii "c")) second).1,
    )
list_items-Pages_example =
    list_items-Pages host cfg ctx config_map (ascii "n") (ascii "app") pages 2 (omega arith)
