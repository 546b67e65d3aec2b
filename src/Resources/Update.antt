-- ===== src/Resources/Update.antt =====
-- src/resources.rs: `Ctx`, `get_destination_folder`, `update_file` and `iterate_data`.
use k8s_sidecar_rs.Base.{
  Text, Bytes, ascii, ℕ, Bool, true, false, ◌||◌, Option, none, some, List, [], ◌∷◌, ◌++◌, map,
  Result, ok, err, map_err, if◌then◌else◌,
}
use k8s_sidecar_rs.Base.Str.{starts_with, ends_with, strip_suffix}
use k8s_sidecar_rs.Base.Utf8.{from_utf8}
use k8s_sidecar_rs.Base.Dict
use k8s_sidecar_rs.Base.Dict.{Dict}
use k8s_sidecar_rs.Base.{nat_eq, list_eq}
use k8s_sidecar_rs.Kubeapi.Items.{Kind, Item, as_str}
use k8s_sidecar_rs.Host.World.{Host, IoError}
use k8s_sidecar_rs.Host.Io.{Io, Act, pure, ◌>>=◌, ◌>>◌, ◌>>=?◌, info, error}
use k8s_sidecar_rs.Files.{unique_filename, write_data_to_file, remove_file}
use k8s_sidecar_rs.Http.Auth.{HttpCfg}
use k8s_sidecar_rs.Http.Request.{request, body_if_ok}
use k8s_sidecar_rs.Resources.Cache.{url_suffix}

pub record Ctx (Json : Type 0) : Type 0 where
  pub label : Text
  pub label_value : Option Text
  pub target_folder : Text
  pub folder_annotation : Text
  pub req_method : Option Text
  pub req_payload : Option Json
  pub script : Option Text
  pub unique_filenames : Bool
  pub enable_5xx : Bool
  pub resource_name : Text
  pub mode : Option Text
  pub watch_server_timeout : ℕ
  pub watch_client_timeout : ℕ

abbrev selector_of : Text → Option Text → Text
selector_of label none = label
selector_of label (some v) = label ++ ascii "=" ++ v

unfoldable pub selector : {Json : Type 0} → Ctx Json → Text
selector ctx = selector_of ctx.label ctx.label_value

pub data Content : Type 0 where
  text : Text → Content
  bin : Bytes → Content

pub override_msg : Text → Text → Text
override_msg name dest =
    ascii "Found a folder override annotation, placing the " ++ name ++ ascii " in: " ++ dest

pub updating_msg : Text → Text → Text
updating_msg data_key dest_folder =
    ascii "Error when updating from '" ++ data_key ++ ascii "' into '" ++ dest_folder ++ ascii "'"

-- An absolute annotation replaces the target folder, a relative one is joined to it.
unfoldable pub folder_for : Text → Option Text → Text
folder_for target none = target
folder_for target (some value) =
    if starts_with value (ascii "/")
    then value
    else if ends_with target (ascii "/")
    then target ++ value
    else target ++ (b'/' ∷ value)

abbrev annotated : (H : Host) → Item → Text → Option Text → Io H Unit
annotated H item dest none = pure tt
annotated H item dest (some value) = info H (override_msg item.name dest)

unfoldable pub get_destination_folder : (H : Host) → Item → Ctx H.Json → Io H Text
get_destination_folder H item ctx =
    let annotation = Dict.get item.annotations ctx.folder_annotation in
    let dest = folder_for ctx.target_folder annotation in
    annotated H item dest annotation >> pure dest

-- The text of a `FromUtf8Error`; its only reader drops it.
pub utf8_error : Text
utf8_error = ascii "invalid utf-8 sequence"

abbrev decoded : Option Text → Result Text Text
decoded none = err utf8_error
decoded (some t) = ok t

unfoldable pub url_of : Content → Result Text Text
url_of (text t) = ok t
url_of (bin b) = decoded (from_utf8 b)

abbrev pub raw_bytes : Content → Bytes
raw_bytes (text t) = t
raw_bytes (bin b) = b

module _ (H : Host) (cfg : HttpCfg H.F64) where
  abbrev pub fetch : Ctx H.Json → Text → Result Text Text → Act H Text (Text × Bytes)
  fetch ctx filename (err e) = pure (err e)
  fetch ctx filename (ok url) =
      request H cfg (some url) (some (ascii "GET")) ctx.enable_5xx none >>= λ resp.
      pure (ok (filename, body_if_ok resp))

  -- The file name and the data of a key, by what `strip_suffix(".url")` found. A URL is fetched on
  -- the removal path too.
  unfoldable pub file_data : Ctx H.Json → Text → Content → Option Text → Act H Text (Text × Bytes)
  file_data ctx data_key content none = pure (ok (data_key, raw_bytes content))
  file_data ctx data_key content (some stripped) = fetch ctx stripped (url_of content)

  unfoldable pub final_name : Ctx H.Json → Item → Kind → Text → Text
  final_name ctx item kind filename =
      if ctx.unique_filenames
      then unique_filename filename item.namespace (as_str kind) item.name
      else filename

  unfoldable pub store : Text → Text → Bytes → Text → Bool → Act H Text Bool
  store dest_folder filename contents content_type true =
      remove_file H dest_folder filename >>= λ removed. pure (ok removed)
  store dest_folder filename contents content_type false =
      write_data_to_file H dest_folder filename contents content_type >>= λ r.
      pure (map_err (λ (e : IoError). e.message) r)

  -- `match result`: an error is logged and counts as no change.
  abbrev pub settle : Text → Text → Result Bool Text → Io H Bool
  settle data_key dest_folder (ok changed) = pure changed
  settle data_key dest_folder (err e) = error H (updating_msg data_key dest_folder) >> pure false

  unfoldable pub update_file :
      Text → Content → Text → Item → Kind → Ctx H.Json → Text → Bool → Io H Bool
  update_file data_key content dest_folder item kind ctx content_type remove =
      (file_data ctx data_key content (strip_suffix data_key url_suffix) >>=? λ found.
      store dest_folder (final_name ctx item kind found.0) found.1 content_type remove)
      >>= settle data_key dest_folder

  -- The loop, from the value of `changed`.
  unfoldable pub iterate_from :
      Bool → List (Text × Content) → Text → Item → Kind → Ctx H.Json → Text → Bool → Io H Bool
  iterate_from changed [] dest_folder item kind ctx content_type remove w = (changed, w)
  iterate_from changed ((k, c) ∷ entries) dest_folder item kind ctx content_type remove w =
      let (b, w') = update_file k c dest_folder item kind ctx content_type remove w in
      iterate_from (changed || b) entries dest_folder item kind ctx content_type remove w'

  unfoldable pub iterate_data :
      List (Text × Content) → Text → Item → Kind → Ctx H.Json → Text → Bool → Io H Bool
  iterate_data = iterate_from false

abbrev pub text_entries : Dict Text Text → List (Text × Content)
text_entries = map (λ (e : Text × Text). (e.0, text e.1))

abbrev pub bin_entries : Dict Text Bytes → List (Text × Content)
bin_entries = map (λ (e : Text × Bytes). (e.0, bin e.1))
