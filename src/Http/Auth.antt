-- ===== src/Http/Auth.antt =====
-- src/http.rs: the configuration and the basic-auth header.
use k8s_sidecar_rs.Base.{
  Text, Bytes, ascii, ℕ, ◌+◌, ◌-◌, ◌*◌, Bool, false, ◌||◌, Option, none, some, [], ◌∷◌, ◌++◌, ◌==◌,
  nat_eq, list_eq, Result, ok, err, or_else, unwrap_or, ltb, in_range, if◌then◌else◌,
}
use k8s_sidecar_rs.Base.Str.{to_lowercase}
use k8s_sidecar_rs.Base.Utf8.{from_utf8}
use k8s_sidecar_rs.Base.Trim.{trim}
use k8s_sidecar_rs.Host.World.{Host, IoError, ErrorKind, not_found, permission_denied, invalid_data}
use k8s_sidecar_rs.Host.Io.{Io, pure, ◌>>=◌, ◌>>◌, warning, error}
use k8s_sidecar_rs.Host.Env.{env_u32, env_f64}

pub record HttpCfg (F64 : Type 0) : Type 0 where
  pub retry_total : ℕ
  pub backoff_factor : F64
  pub timeout : F64
  pub skip_tls_verify : Bool
  pub username_file_flag : Option Text
  pub password_file_flag : Option Text

-- A variable is set to exactly this text.
abbrev pub is_text : Option Text → Text → Bool
is_text none t = false
is_text (some s) t = s == t

pub not_found_msg : Text → Text
not_found_msg path = ascii "File not found at: " ++ path

pub no_permission_msg : Text → Text
no_permission_msg path = ascii "No read permission for file: " ++ path

pub unexpected_msg : Text → Text
unexpected_msg message = ascii "An unexpected error occurred: " ++ message

-- Characters up to U+00FF are one byte, others become `?`. In UTF-8 the leads 0xC2 and 0xC3 begin
-- the characters from U+0080 to U+00FF; a byte from 0x80 to 0xBF belongs to the character before it.
unfoldable pub encode_latin1 : Text → Bytes
encode_latin1 [] = []
encode_latin1 (a ∷ []) = if ltb a 0x80 then a ∷ [] else []
encode_latin1 (a ∷ b ∷ s) =
    let after1 = encode_latin1 (b ∷ s) in
    let after2 = encode_latin1 s in
    if ltb a 0x80
    then a ∷ after1
    else if in_range 0xC2 0xC3 a
    then ((a - 0xC0) * 64 + (b - 0x80)) ∷ after2
    else if ltb 0xC3 a
    then b'?' ∷ after1
    else after1

unfoldable pub encode_cred : Text → Text → Bytes
encode_cred s encoding =
    let lower = to_lowercase encoding in
    if lower == ascii "latin1"
      || lower == ascii "latin-1"
      || lower == ascii "iso-8859-1"
      || lower == ascii "ascii"
    then encode_latin1 s
    else s

module _ (H : Host) where
  -- Read once at startup; `cfg` has the same defaults where `init` was not called.
  unfoldable pub init : Option Text → Option Text → HttpCfg H.F64
  init username_file_flag password_file_flag = record {
    retry_total = env_u32 H (ascii "REQ_RETRY_TOTAL") 5;
    backoff_factor = env_f64 H (ascii "REQ_RETRY_BACKOFF_FACTOR") (H.f64_literal 11 10);
    timeout = env_f64 H (ascii "REQ_TIMEOUT") (H.f64_literal 10 1);
    skip_tls_verify = is_text (H.var (ascii "REQ_SKIP_TLS_VERIFY")) (ascii "true");
    username_file_flag = username_file_flag;
    password_file_flag = password_file_flag;
  }

  -- std::fs::read_to_string: text that is no UTF-8 is an error too.
  abbrev pub decode : Option Text → Result Text IoError
  decode none =
      err (record { kind = invalid_data; message = ascii "stream did not contain valid UTF-8" })
  decode (some t) = ok t

  abbrev pub text_of : Result Bytes IoError → Result Text IoError
  text_of (ok b) = decode (from_utf8 b)
  text_of (err e) = err e

  abbrev pub unreadable : Text → IoError → ErrorKind → Io H (Option Text)
  unreadable path e not_found = warning H (not_found_msg path) >> pure none
  unreadable path e permission_denied = error H (no_permission_msg path) >> pure none
  unreadable path e _ = error H (unexpected_msg e.message) >> pure none

  abbrev pub trimmed : Text → Result Text IoError → Io H (Option Text)
  trimmed path (ok s) = pure (some (trim s))
  trimmed path (err e) = unreadable path e e.kind

  unfoldable pub read_file_content : Text → Io H (Option Text)
  read_file_content path w = trimmed path (text_of (H.read w.disk path)) w

  -- A readable file's content replaces the value of the environment variable.
  unfoldable pub override_by : Option Text → Option Text → Io H (Option Text)
  override_by none value = pure value
  override_by (some f) value = read_file_content f >>= λ v. pure (or_else v value)

  unfoldable pub fetch_basic_auth_credentials : HttpCfg H.F64 → Io H (Option Text × Option Text)
  fetch_basic_auth_credentials c =
      override_by (or_else c.username_file_flag (H.var (ascii "REQ_USERNAME_FILE")))
        (H.var (ascii "REQ_USERNAME"))
      >>= λ username.
          override_by (or_else c.password_file_flag (H.var (ascii "REQ_PASSWORD_FILE")))
            (H.var (ascii "REQ_PASSWORD"))
          >>= λ password. pure (username, password)

  -- The header for both credentials, unless one is absent or empty.
  unfoldable pub header_for : Option Text → Option Text → Option Text
  header_for none pass = none
  header_for (some user) none = none
  header_for (some user) (some pass) =
      if user == [] || pass == []
      then none
      else let encoding = unwrap_or (H.var (ascii "REQ_BASIC_AUTH_ENCODING")) (ascii "latin1") in
        some (
          ascii "Basic "
          ++ H.base64 (encode_cred user encoding ++ b':' ∷ encode_cred pass encoding))

  unfoldable pub basic_auth_header : HttpCfg H.F64 → Io H (Option Text)
  basic_auth_header c =
      fetch_basic_auth_credentials c >>= λ creds. pure (header_for creds.0 creds.1)
