-- ===== src/Health/Server.antt =====
-- src/health.rs: `handle`, which answers one connection.
use mathlib.Core.Option
use k8s_sidecar_rs.Base.{
  Text, Bytes, ascii, ℕ, ◌+◌, Option, none, some, [], ◌∷◌, ◌++◌, ◌==◌, nat_eq, list_eq, unwrap_or,
  if◌then◌else◌,
}
use k8s_sidecar_rs.Base.Number.{decimal}
use k8s_sidecar_rs.Base.Utf8.{from_utf8_lossy}
use k8s_sidecar_rs.Base.Words.{first_line, split_whitespace, second}
use k8s_sidecar_rs.Health.Status.{Health, Reply, status_body}

-- The number of bytes of a text.
unfoldable pub len : Text → ℕ
len [] = 0
len (c ∷ s) = 1 + len s

unfoldable pub request_path : Bytes → Text
request_path bytes =
    unwrap_or
      (Option.bind (first_line (from_utf8_lossy bytes)) (λ line. second (split_whitespace line)))
      (ascii "/")

abbrev pub not_found : Reply
not_found = record { code = 404; reason = ascii "Not Found"; body = ascii "Not Found" }

-- A line end of HTTP.
abbrev pub crlf : Text
crlf = 13 ∷ 10 ∷ []

unfoldable pub render : Reply → Text
unfolding len
render r =
    ascii "HTTP/1.0 "
    ++ decimal r.code
    ++ ascii " "
    ++ r.reason
    ++ crlf
    ++ ascii "Server: HealthHTTP/1.0"
    ++ crlf
    ++ ascii "Content-Type: text/plain; charset=utf-8"
    ++ crlf
    ++ ascii "Content-Length: "
    ++ decimal (len r.body)
    ++ crlf
    ++ ascii "Connection: close"
    ++ crlf
    ++ crlf
    ++ r.body

abbrev pub health_path : Text
health_path = ascii "/healthz"

-- The reply to what one read of at most 1024 bytes has returned. Nothing is written when the read
-- failed or returned no bytes.
unfoldable pub handle : ℕ → Health → Option Bytes → Option Text
handle elapsed h none = none
handle elapsed h (some []) = none
handle elapsed h (some (b ∷ bytes)) =
    some (
      render (if request_path (b ∷ bytes) == health_path then status_body elapsed h else not_found))
