-- ===== src/Health/Requests.antt =====
-- src/health.rs, handle: what a request line leads to.
use mathlib.Core.Option
use k8s_sidecar_rs.Base.{
  Text, ℕ, some, [], ◌∷◌, ◌++◌, ◌≡◌, ◌≢◌, refl, ◌==◌, nat_eq, list_eq, if◌then◌else◌,
}
use k8s_sidecar_rs.Base.Utf8.{from_utf8, from_utf8_lossy-from_utf8}
use k8s_sidecar_rs.Base.Words.Laws.{Printable, second-line_of}
use k8s_sidecar_rs.Health.Status.{Health, status_body}
use k8s_sidecar_rs.Health.Server.{request_path, health_path, not_found, render, handle}

abbrev pub request_line : Text → Text → Text → Text
request_line method path rest = method ++ b' ' ∷ (path ++ b' ' ∷ rest)

request_path-line :
    (method path rest : Text)
    → Printable 33 method
    → Printable 33 path
    → method ≢ []
    → path ≢ []
    → from_utf8 (request_line method path rest) ≡ some (request_line method path rest)
    → request_path (request_line method path rest) ≡ path
unfolding request_path Option.bind
request_path-line [] path rest hm hp nm np valid = absurd (nm refl)
request_path-line (c ∷ method) path rest hm hp nm np valid =
    rw
      (
        from_utf8_lossy-from_utf8 (request_line (c ∷ method) path rest) valid,
        second-line_of (c ∷ method) path rest hm hp nm np,
      )
      refl

-- A request in UTF-8 that begins with a method and a path, words of printable ASCII characters, each
-- followed by a space: whatever the method and the rest are, the path `/healthz` is answered with the
-- status of the health state, and every other path with 404.
pub handle-request_line :
    (elapsed : ℕ) (h : Health) (method path rest : Text)
    → Printable 33 method
    → Printable 33 path
    → method ≢ []
    → path ≢ []
    → from_utf8 (request_line method path rest) ≡ some (request_line method path rest)
    → handle elapsed h (some (request_line method path rest))
      ≡ some (render (if path == health_path then status_body elapsed h else not_found))
unfolding handle
handle-request_line elapsed h [] path rest hm hp nm np valid = absurd (nm refl)
handle-request_line elapsed h (c ∷ method) path rest hm hp nm np valid =
    rw (request_path-line (c ∷ method) path rest hm hp nm np valid) refl
