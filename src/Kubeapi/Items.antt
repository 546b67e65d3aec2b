-- ===== src/Kubeapi/Items.antt =====
-- src/kubeapi.rs: resource kinds and items. `ConfigMap`, `Secret` and `ObjectMeta` are the types of
-- `k8s_openapi` with the fields that the program reads; a `ByteString` is its bytes.
use k8s_sidecar_rs.Base.{
  Text, Bytes, ascii, ℕ, Bool, true, false, Option, none, ◌++◌, ◌≡◌, ◌↔◌, Eq, arith, unwrap_or, [],
}
use k8s_sidecar_rs.Base.Dict.{Dict}

pub data Kind : Type 0 where
  config_map secret : Kind

unfoldable pub as_str : Kind → Text
as_str config_map = ascii "configmap"
as_str secret = ascii "secret"

abbrev pub kind_beq : Kind → Kind → Bool
kind_beq config_map config_map = true
kind_beq secret secret = true
kind_beq _ _ = false

pub kind_beq_iff : (a b : Kind) → (kind_beq a b ≡ true) ↔ (a ≡ b)
kind_beq_iff a b = ground arith

instance abbrev pub kind_eq : Eq Kind
kind_eq = record { beq = kind_beq; beq_iff = kind_beq_iff }

pub record ObjectMeta : Type 0 where
  pub namespace : Option Text
  pub name : Option Text
  pub resource_version : Option Text
  pub annotations : Option (Dict Text Text)

pub record ConfigMap : Type 0 where
  pub metadata : ObjectMeta
  pub values : Option (Dict Text Text)
  pub binary_data : Option (Dict Text Bytes)

pub record Secret : Type 0 where
  pub metadata : ObjectMeta
  pub values : Option (Dict Text Bytes)

pub record Item : Type 0 where
  pub namespace : Text
  pub name : Text
  pub resource_version : Text
  pub annotations : Dict Text Text
  pub text : Option (Dict Text Text)
  pub binary : Option (Dict Text Bytes)

-- Item::key, with no separator.
unfoldable pub key : Item → Text
key item = item.namespace ++ item.name

unfoldable pub from_cm : ConfigMap → Item
from_cm cm = record {
  namespace = unwrap_or cm.metadata.namespace [];
  name = unwrap_or cm.metadata.name [];
  resource_version = unwrap_or cm.metadata.resource_version [];
  annotations = unwrap_or cm.metadata.annotations [];
  text = cm.values;
  binary = cm.binary_data;
}

unfoldable pub from_secret : Secret → Item
from_secret sec = record {
  namespace = unwrap_or sec.metadata.namespace [];
  name = unwrap_or sec.metadata.name [];
  resource_version = unwrap_or sec.metadata.resource_version [];
  annotations = unwrap_or sec.metadata.annotations [];
  text = none;
  binary = sec.values;
}

-- kube::Error: the API server's answer, or any other failure.
pub data KubeError : Type 0 where
  api : ℕ → Text → KubeError
  transport : Text → KubeError
