-- ===== src/Examples/Data.antt =====
-- A small cluster for the examples: two config maps, a sidecar's settings, and a world.
use k8s_sidecar_rs.Base.{
  Text, Bytes, ascii, ℕ, false, none, some, List, [], ◌∷◌, Result, ok, ◌≡◌, ◌≢◌, ◌==◌, nat_eq,
  list_eq, list_beq_iff, arith,
}
use k8s_sidecar_rs.Base.Dict.{Dict}
use k8s_sidecar_rs.Kubeapi.Items.{Item}
use k8s_sidecar_rs.Host.World.{World, HttpRequest, HttpResponse}
use k8s_sidecar_rs.Host.Memory.{host, quiet, world_of}
use k8s_sidecar_rs.Http.Auth.{HttpCfg}
use k8s_sidecar_rs.Resources.Cache.{CachedItem, Key}
use k8s_sidecar_rs.Resources.Update.{Ctx}

abbrev pub cfg : HttpCfg host.F64
cfg = record {
  retry_total = 2;
  backoff_factor = 1;
  timeout = 10;
  skip_tls_verify = false;
  username_file_flag = none;
  password_file_flag = none;
}

abbrev pub ctx_for : Text → Ctx host.Json
ctx_for resource_name = record {
  label = ascii "app";
  label_value = none;
  target_folder = ascii "/data";
  folder_annotation = ascii "folder";
  req_method = none;
  req_payload = none;
  script = none;
  unique_filenames = false;
  enable_5xx = false;
  resource_name = resource_name;
  mode = none;
  watch_server_timeout = 60;
  watch_client_timeout = 66;
}

abbrev pub ctx : Ctx host.Json
ctx = ctx_for []

abbrev pub item_of : Text → Text → Text → Text → Text → Item
item_of namespace name version key value = record {
  namespace = namespace;
  name = name;
  resource_version = version;
  annotations = [];
  text = some ((key, value) ∷ []);
  binary = none;
}

abbrev pub item : Item
item = item_of (ascii "n") (ascii "a") (ascii "1") (ascii "f") (ascii "x")

abbrev pub cached : Text → Text → CachedItem
cached namespace name = record { namespace = namespace; name = name; text = none; binary = none }

abbrev pub files : Dict Text Bytes
files = (ascii "/data/f", ascii "old") ∷ []

abbrev pub start : World host
start = world_of files quiet

-- The map is walked in the order of its entries.
abbrev pub in_order : List (Key × CachedItem) → List (Key × CachedItem)
in_order m = m

abbrev pub reply : ℕ → Text → Result HttpResponse Text
reply status body = ok (record { status = status; body = ok body })

abbrev pub serving : List (Result HttpResponse Text) → World host
serving responses = world_of files (record quiet { responses = responses })

abbrev pub get_request : HttpRequest host.Json
get_request = record { post = false; url = ascii "u"; authorization = none; json = none }

-- Two texts are told apart by a run of the test.
pub texts_differ : (a b : Text) → (a == b) ≡ false → a ≢ b
texts_differ a b h e = ground (arith, list_beq_iff a b)
