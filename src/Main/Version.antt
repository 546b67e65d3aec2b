-- ===== src/Main/Version.antt =====
-- src/main.rs, run: the gate on the API server's version, 1.19 and later.
use k8s_sidecar_rs.Base.{
  Text, ℕ, Bool, not, ◌||◌, ◌&&◌, [], ◌∷◌, ◌==◌, nat_eq, list_eq, in_range, ltb, leb, unwrap_or,
  if◌then◌else◌,
}
use k8s_sidecar_rs.Base.Number.{parse_unsigned, u64_limit}
use k8s_sidecar_rs.Kubeapi.Client.{Version}

-- `chars().filter(|c| c.is_ascii_digit())`
unfoldable pub digits_of : Text → Text
digits_of [] = []
digits_of (c ∷ s) = let rest = digits_of s in if in_range b'0' b'9' c then c ∷ rest else rest

-- `parse().unwrap_or(0)` of a u64.
abbrev pub number_of : Text → ℕ
number_of digits = unwrap_or (parse_unsigned 10 u64_limit digits) 0

abbrev pub at_least_1_19 : ℕ → ℕ → Bool
at_least_1_19 maj min = ltb 1 maj || (maj == 1 && leb 19 min)

unfoldable pub is_supported : Version → Bool
is_supported version =
    let major = digits_of version.major in
    let minor = digits_of version.minor in
    not (major == []) && not (minor == []) && at_least_1_19 (number_of major) (number_of minor)
