-- ===== src/Base/Str/Laws.antt =====
-- `strip_suffix` undoes an append, and `split` undoes a join.
use Prim.Native.Nat.{ℕ, suc, ◌+◌}
use mathlib.Core.Path.{◌≡◌, refl, ap}
use mathlib.Core.Logic.{◌≢◌, inl, inr}
use mathlib.Core.Bool.{false}
use mathlib.Core.Option.{some}
use mathlib.Core.List.{[], ◌∷◌, ◌++◌}
use native.Mathlib.Omega.{arith}
use k8s_sidecar_rs.Base.Tests.{Option-cases}
use k8s_sidecar_rs.Base.Equality.{nat_eq, list_eq, list_beq_iff, beq_refl}
use k8s_sidecar_rs.Base.Str.{Text, strip_suffix, split, has_char}

abbrev length : Text → ℕ
length [] = 0
length (c ∷ s) = suc (length s)

length-append : (s t : Text) → length (s ++ t) ≡ length s + length t
length-append [] t = omega arith
length-append (c ∷ s) t = omega (arith, length-append s t)

pub strip_suffix_sound :
    (s suffix : Text) {t : Text} → strip_suffix s suffix ≡ some t → s ≡ t ++ suffix
unfolding strip_suffix
strip_suffix_sound [] suffix h = ground (arith, list_beq_iff [] suffix)
strip_suffix_sound (c ∷ s) suffix {t} h = elim (Option-cases (strip_suffix s suffix)) [
  | inl missing ↦ ground (arith, list_beq_iff (c ∷ s) suffix)
  | inr (u, found) ↦ ground (arith, list_beq_iff (c ∷ s) suffix, strip_suffix_sound s suffix found)
]

longer-ne : (c : ℕ) (t suffix : Text) → c ∷ (t ++ suffix) ≢ suffix
longer-ne c t suffix e = omega (arith, ap length e, length-append t suffix)

pub strip_suffix-append : (t suffix : Text) → strip_suffix (t ++ suffix) suffix ≡ some t
unfolding strip_suffix
strip_suffix-append [] [] = rw (beq_refl {A = Text} [])
strip_suffix-append [] (c ∷ s) = ground (arith, list_beq_iff (c ∷ s) (c ∷ s))
strip_suffix-append (c ∷ t) suffix = ground (
  arith,
  strip_suffix-append t suffix,
  longer-ne c t suffix,
  list_beq_iff (c ∷ (t ++ suffix)) suffix,
)

-- A piece without the separator is split off whole.
pub split-append :
    (sep : ℕ) (a s : Text) → has_char sep a ≡ false → split sep (a ++ sep ∷ s) ≡ a ∷ split sep s
unfolding split has_char
split-append sep [] s h = ground arith
split-append sep (c ∷ a) s h = ground (arith, split-append sep a s)

pub split-piece : (sep : ℕ) (a : Text) → has_char sep a ≡ false → split sep a ≡ a ∷ []
unfolding split has_char
split-piece sep [] h = refl
split-piece sep (c ∷ a) h = ground (arith, split-piece sep a)
