-- ===== src/Main/Gate.antt =====
-- src/main.rs, run: what the version gate makes of an API server's version.
use k8s_sidecar_rs.Base.{
  Text, ℕ, ◌≤◌, ◌<◌, true, false, [], ◌∷◌, ◌++◌, ◌≡◌, ◌↔◌, ◌⊎◌, ap, arith, ◌==◌, nat_eq, list_eq,
  list_beq_iff,
}
use k8s_sidecar_rs.Base.Number.{decimal, u64_limit}
use k8s_sidecar_rs.Base.Number.Laws.{
  AreDigits, AreDigits-decimal, decimal-ne, parse_unsigned-decimal,
}
use k8s_sidecar_rs.Main.Version.{digits_of, is_supported}

digits_of-append : (s t : Text) → AreDigits s → digits_of t ≡ [] → digits_of (s ++ t) ≡ s
unfolding digits_of
digits_of-append [] t h e = e
digits_of-append (c ∷ s) t h e = rw h.0 (ap (λ x. c ∷ x) (digits_of-append s t h.1 e))

-- A major or minor version: a number, and a suffix such as `+` without digits.
abbrev pub numbered : ℕ → Text → Text
numbered n suffix = decimal n ++ suffix

digits_of-numbered :
    (n : ℕ) (suffix : Text) → digits_of suffix ≡ [] → digits_of (numbered n suffix) ≡ decimal n
digits_of-numbered n suffix e = digits_of-append (decimal n) suffix (AreDigits-decimal n) e

decimal-non_empty : (n : ℕ) → (decimal n == []) ≡ false
decimal-non_empty n = ground (arith, decimal-ne n, list_beq_iff (decimal n) [])

-- A server whose major and minor versions are numbers below 2^64, each with a suffix that has no
-- digit: the gate is open exactly from version 1.19 on.
pub is_supported-numbered :
    (maj min : ℕ) (s t git_version : Text)
    → digits_of s ≡ []
    → digits_of t ≡ []
    → maj < u64_limit
    → min < u64_limit
    → (is_supported
          (record { major = numbered maj s; minor = numbered min t; git_version = git_version })
        ≡ true)
      ↔ ((1 < maj) ⊎ ((maj ≡ 1) × (19 ≤ min)))
unfolding is_supported
is_supported-numbered maj min s t git_version es et hm hn =
    rw
      (
        digits_of-numbered maj s es,
        digits_of-numbered min t et,
        parse_unsigned-decimal u64_limit maj hm,
        parse_unsigned-decimal u64_limit min hn,
        decimal-non_empty maj,
        decimal-non_empty min,
      )
      (ground arith)
