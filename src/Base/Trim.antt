-- ===== src/Base/Trim.antt =====
-- `str::trim`, which drops Unicode white space at both ends: the ASCII characters, and those of two
-- and three bytes in UTF-8.
use Prim.Native.Nat.{ℕ}
use mathlib.Core.Bool.{Bool, ◌||◌, ◌&&◌}
use mathlib.Core.List.{[], ◌∷◌, reverse}
use k8s_sidecar_rs.Base.Tests.{if◌then◌else◌, in_range}
use k8s_sidecar_rs.Base.Equality.{◌==◌, nat_eq}
use k8s_sidecar_rs.Base.Str.{Text}

abbrev pub white1 : ℕ → Bool
white1 a = in_range 9 13 a || a == 32

-- U+0085, U+00A0
abbrev pub white2 : ℕ → ℕ → Bool
white2 a b = a == 0xC2 && (b == 0x85 || b == 0xA0)

-- U+1680, U+2000 to U+200A, U+2028, U+2029, U+202F, U+205F, U+3000
abbrev pub white3 : ℕ → ℕ → ℕ → Bool
white3 a b c =
    (a == 0xE1 && b == 0x9A && c == 0x80)
    || (a == 0xE2 && b == 0x80 && (in_range 0x80 0x8A c || c == 0xA8 || c == 0xA9 || c == 0xAF))
    || (a == 0xE2 && b == 0x81 && c == 0x9F)
    || (a == 0xE3 && b == 0x80 && c == 0x80)

-- The tests are parameters, since from the end the bytes of a character come in reverse.
drop_white : (ℕ → ℕ → Bool) → (ℕ → ℕ → ℕ → Bool) → Text → Text
drop_white two three [] = []
drop_white two three (a ∷ []) = if white1 a then [] else a ∷ []
drop_white two three (a ∷ b ∷ []) =
    let rest = drop_white two three (b ∷ []) in
    if white1 a then rest else if two a b then [] else a ∷ b ∷ []
drop_white two three (a ∷ b ∷ c ∷ s) =
    let after1 = drop_white two three (b ∷ c ∷ s) in
    let after2 = drop_white two three (c ∷ s) in
    let after3 = drop_white two three s in
    if white1 a
    then after1
    else if two a b
    then after2
    else if three a b c
    then after3
    else a ∷ b ∷ c ∷ s

unfoldable pub trim : Text → Text
unfolding drop_white
trim s =
    let front = drop_white white2 white3 s in
    reverse (drop_white (λ a b. white2 b a) (λ a b c. white3 c b a) (reverse front))
