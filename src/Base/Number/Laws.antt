-- ===== src/Base/Number/Laws.antt =====
-- Reading back what `to_string` prints of an unsigned integer.
use Prim.Native.Nat.{ℕ, zero, suc, ◌+◌, ◌-◌, ◌*◌, ◌/◌, ◌%◌, ◌<◌}
use mathlib.Core.Path.{◌≡◌, refl, sym, ap, ◌∙◌}
use mathlib.Core.Logic.{◌≢◌, inl, inr}
use mathlib.Core.Bool.{true, false}
use mathlib.Core.Option.{some}
use mathlib.Core.List.{[], ◌∷◌, ◌++◌}
use native.Mathlib.Omega.{arith}
use k8s_sidecar_rs.Base.Tests.{in_range, ltb, Bool-cases, ltb→lt}
use k8s_sidecar_rs.Base.Equality.{◌==◌, nat_eq}
use k8s_sidecar_rs.Base.Str.{Text}
use k8s_sidecar_rs.Base.Number.{digits_from, parse_unsigned, decimal_from, decimal}

abbrev pub AreDigits : Text → Type 0
AreDigits [] = Unit
AreDigits (c ∷ s) = (in_range b'0' b'9' c ≡ true) × AreDigits s

AreDigits-append : (s t : Text) → AreDigits s → AreDigits t → AreDigits (s ++ t)
AreDigits-append [] t hs ht = ht
AreDigits-append (c ∷ s) t hs ht = (hs.0, AreDigits-append s t hs.1 ht)

last_digit : (n : ℕ) → AreDigits ((b'0' + n % 10) ∷ [])
last_digit n = (ground arith, tt)

AreDigits-decimal_from : (fuel n : ℕ) → AreDigits (decimal_from fuel n)
unfolding decimal_from
AreDigits-decimal_from zero n = tt
AreDigits-decimal_from (suc fuel) n = elim (Bool-cases (ltb n 10)) [
  | inl small ↦ rw small (last_digit n)
  | inr large ↦
      rw large (AreDigits-append _ _ (AreDigits-decimal_from fuel (n / 10)) (last_digit n))
]

pub AreDigits-decimal : (n : ℕ) → AreDigits (decimal n)
unfolding decimal
AreDigits-decimal n = AreDigits-decimal_from (n + 1) n

snoc_ne : (s : Text) (c : ℕ) → s ++ c ∷ [] ≢ []
snoc_ne [] c e = cc
snoc_ne (x ∷ s) c e = cc

pub decimal-ne : (n : ℕ) → decimal n ≢ []
unfolding decimal decimal_from
decimal-ne n e =
    let more : n + 1 ≡ suc n = omega arith in
    snoc_ne _ _ (sym (ap (λ k. decimal_from k n) more) ∙ e)

module _ (limit : ℕ) where
  digits_from-append :
      (s : Text) (acc : ℕ) (c m : ℕ)
      → digits_from 10 limit acc s ≡ some m
      → in_range b'0' b'9' c ≡ true
      → m * 10 + (c - b'0') < limit
      → digits_from 10 limit acc (s ++ c ∷ []) ≡ some (m * 10 + (c - b'0'))
  unfolding digits_from
  digits_from-append [] acc c m h d l = ground arith
  digits_from-append (x ∷ s) acc c m h d l =
      ground (arith, digits_from-append s (acc * 10 + (x - b'0')) c m)

  digits_from-last :
      (n : ℕ) → n < 10 → n < limit → digits_from 10 limit 0 ((b'0' + n % 10) ∷ []) ≡ some n
  unfolding digits_from
  digits_from-last n h l = ground arith

  digits_from-decimal_from :
      (fuel n : ℕ) → n < fuel → n < limit → digits_from 10 limit 0 (decimal_from fuel n) ≡ some n
  unfolding decimal_from
  digits_from-decimal_from zero n h l = absurd (omega arith)
  digits_from-decimal_from (suc fuel) n h l = elim (Bool-cases (ltb n 10)) [
    | inl small ↦ rw small (digits_from-last n (ltb→lt n 10 small) l)
    | inr large ↦
        let front = digits_from-decimal_from fuel (n / 10) (ground arith) (omega arith) in
        let whole : (n / 10) * 10 + ((b'0' + n % 10) - b'0') ≡ n = omega arith in
        rw large (
          digits_from-append (decimal_from fuel (n / 10)) 0 (b'0' + n % 10) (n / 10) front
            (ground arith) (omega arith)
          ∙ ap some whole)
  ]

  parse_unsigned-digits :
      (s : Text) → AreDigits s → s ≢ [] → parse_unsigned 10 limit s ≡ digits_from 10 limit 0 s
  unfolding parse_unsigned
  parse_unsigned-digits [] h ne = absurd (ne refl)
  parse_unsigned-digits (c ∷ []) h ne = refl
  parse_unsigned-digits (c ∷ d ∷ s) h ne =
      let digit = h.0 in let unsigned : (c == b'+') ≡ false = ground arith in rw unsigned refl

  pub parse_unsigned-decimal : (n : ℕ) → n < limit → parse_unsigned 10 limit (decimal n) ≡ some n
  unfolding decimal
  parse_unsigned-decimal n l =
      parse_unsigned-digits (decimal n) (AreDigits-decimal n) (decimal-ne n)
      ∙ digits_from-decimal_from (n + 1) n (omega arith) l

pub decimal-injective : (limit i j : ℕ) → i < limit → j < limit → decimal i ≡ decimal j → i ≡ j
decimal-injective limit i j hi hj e =
    let both : some i ≡ some j =
      sym (parse_unsigned-decimal limit i hi)
      ∙ ap (parse_unsigned 10 limit) e
      ∙ parse_unsigned-decimal limit j hj in
    cc
