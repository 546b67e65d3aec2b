-- ===== src/Resources/Cache.antt =====
-- src/resources.rs: `CachedItem` and `Maps`, the state that all watcher tasks share.
use mathlib.Core.Option
use k8s_sidecar_rs.Base.{Text, Bytes, ascii, Option, none, some, map, [], unwrap_or, if◌then◌else◌}
use k8s_sidecar_rs.Base.Str.{ends_with}
use k8s_sidecar_rs.Base.Dict.{Dict}
use k8s_sidecar_rs.Kubeapi.Items.{Kind, Item}

pub record CachedItem : Type 0 where
  pub namespace : Text
  pub name : Text
  pub text : Option (Dict Text (Option Text))
  pub binary : Option (Dict Text (Option Bytes))

unfoldable pub url_suffix : Text
url_suffix = ascii ".url"

unfoldable pub keep_url_value : {V : Type 0} → Text → V → Option V
unfolding url_suffix
keep_url_value key value = if ends_with key url_suffix then some value else none

abbrev pub keep_entry : {V : Type 0} → Text × V → Text × Option V
keep_entry (k, v) = (k, keep_url_value k v)

unfoldable pub from_item : Item → CachedItem
unfolding keep_url_value
from_item item = record {
  namespace = item.namespace;
  name = item.name;
  text = Option.map (map keep_entry) item.text;
  binary = Option.map (map keep_entry) item.binary;
}

-- `unwrap_or_default` of a text or of bytes.
abbrev pub restore_entry : Text × Option Bytes → Text × Bytes
restore_entry (k, v) = (k, unwrap_or v [])

unfoldable pub to_removal_item : CachedItem → Item
to_removal_item cached = record {
  namespace = cached.namespace;
  name = cached.name;
  resource_version = [];
  annotations = [];
  text = Option.map (map restore_entry) cached.text;
  binary = Option.map (map restore_entry) cached.binary;
}

abbrev pub Key : Type 0
Key = Kind × Text

pub record Maps : Type 0 where
  pub version : Dict Key Text
  pub object : Dict Key CachedItem
  pub dest : Dict Key Text
