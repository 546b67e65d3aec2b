-- ===== src/Base/Number.antt =====
-- `from_str_radix` and `parse` of the unsigned integer types.
pub mod Laws
use Prim.Native.Nat.{ℕ, zero, suc, ◌+◌, ◌-◌, ◌*◌, ◌/◌, ◌%◌, ◌^◌}
use mathlib.Core.Option.{Option, none, some}
use mathlib.Core.List.{[], ◌∷◌, ◌++◌}
use k8s_sidecar_rs.Base.Tests.{if◌then◌else◌, in_range, ltb}
use k8s_sidecar_rs.Base.Equality.{◌==◌, nat_eq}
use k8s_sidecar_rs.Base.Str.{Text}

module _ (radix limit : ℕ) where
  -- Digits up to the end; a sum that leaves the type is an error. The radix is at most 10.
  digits_from : ℕ → Text → Option ℕ
  digits_from acc [] = some acc
  digits_from acc (c ∷ s) =
      let next = acc * radix + (c - b'0') in
      let rest = digits_from next s in
      if in_range b'0' (b'0' + radix - 1) c then (if ltb next limit then rest else none) else none

  -- A lone `+` is no number, and neither is the empty text.
  unfoldable pub parse_unsigned : Text → Option ℕ
  unfolding digits_from
  parse_unsigned [] = none
  parse_unsigned (c ∷ []) = digits_from 0 (c ∷ [])
  parse_unsigned (c ∷ d ∷ s) =
      if c == b'+' then digits_from 0 (d ∷ s) else digits_from 0 (c ∷ d ∷ s)

abbrev pub u16_limit : ℕ
u16_limit = 2 ^ 16

abbrev pub u32_limit : ℕ
u32_limit = 2 ^ 32

abbrev pub u64_limit : ℕ
u64_limit = 2 ^ 64

-- `to_string` of an unsigned integer. One digit is written for each unit of fuel, and `n + 1` units
-- are more than `n` has digits.
decimal_from : ℕ → ℕ → Text
decimal_from zero n = []
decimal_from (suc fuel) n =
    let front = decimal_from fuel (n / 10) in
    (if ltb n 10 then [] else front) ++ (b'0' + n % 10) ∷ []

unfoldable pub decimal : ℕ → Text
unfolding decimal_from
decimal n = decimal_from (n + 1) n
