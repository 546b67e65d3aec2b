-- ===== src/Base/Utf8.antt =====
-- `String::from_utf8` and `String::from_utf8_lossy` of Rust's standard library: the
-- well-formedness table of UTF-8, and the decoder that skips over each character.
use Prim.Native.Nat.{ℕ, zero, suc}
use mathlib.Core.Path.{◌≡◌, refl, ap}
use mathlib.Core.Bool.{Bool, true, false, ◌&&◌}
use mathlib.Core.Option.{Option, none, some}
use mathlib.Core.List.{[], ◌∷◌, ◌++◌}
use native.Mathlib.Omega.{arith}
use k8s_sidecar_rs.Base.Tests.{if◌then◌else◌, in_range, leb}
use k8s_sidecar_rs.Base.Equality.{◌==◌, nat_eq}
use k8s_sidecar_rs.Base.Str.{Text, Bytes}

-- `n` continuation bytes follow, the first of them in `lo..=hi`. The result is whether they do,
-- and how many of them belong to the character or to its invalid prefix.
abbrev continuation : ℕ → ℕ → ℕ → Bytes → Bool × ℕ
continuation zero lo hi bytes = (true, 0)
continuation (suc n) lo hi [] = (false, 0)
continuation (suc n) lo hi (b ∷ bytes) =
    let rest = continuation n 0x80 0xBF bytes in
    if in_range lo hi b then (rest.0, suc rest.1) else (false, 0)

-- The character that begins with `lead`.
char_at : ℕ → Bytes → Bool × ℕ
char_at lead bytes =
    if leb lead 0x7F
    then (true, 0)
    else if in_range 0xC2 0xDF lead
    then continuation 1 0x80 0xBF bytes
    else if lead == 0xE0
    then continuation 2 0xA0 0xBF bytes
    else if lead == 0xED
    then continuation 2 0x80 0x9F bytes
    else if in_range 0xE1 0xEF lead
    then continuation 2 0x80 0xBF bytes
    else if lead == 0xF0
    then continuation 3 0x90 0xBF bytes
    else if in_range 0xF1 0xF3 lead
    then continuation 3 0x80 0xBF bytes
    else if lead == 0xF4
    then continuation 3 0x80 0x8F bytes
    else (false, 0)

-- The first argument counts the bytes of the current character that are still to be passed.
is_utf8_from : ℕ → Bytes → Bool
is_utf8_from skip [] = true
is_utf8_from (suc skip) (b ∷ bytes) = is_utf8_from skip bytes
is_utf8_from zero (b ∷ bytes) =
    let (valid, more) = char_at b bytes in valid && is_utf8_from more bytes

unfoldable pub from_utf8 : Bytes → Option Text
unfolding is_utf8_from char_at
from_utf8 bytes = if is_utf8_from 0 bytes then some bytes else none

abbrev replacement : Bytes
replacement = 0xEF ∷ 0xBF ∷ 0xBD ∷ []

lossy_from : Bool → ℕ → Bytes → Text
lossy_from keep skip [] = []
lossy_from keep (suc skip) (b ∷ bytes) = (if keep then b ∷ [] else []) ++ lossy_from keep skip bytes
lossy_from keep zero (b ∷ bytes) =
    let (valid, more) = char_at b bytes in
    (if valid then b ∷ [] else replacement) ++ lossy_from valid more bytes

unfoldable pub from_utf8_lossy : Bytes → Text
unfolding lossy_from char_at
from_utf8_lossy bytes = lossy_from true 0 bytes

lossy_from_valid :
    (skip : ℕ) (bytes : Bytes) → is_utf8_from skip bytes ≡ true → lossy_from true skip bytes ≡ bytes
unfolding is_utf8_from lossy_from
lossy_from_valid skip [] h = refl
lossy_from_valid (suc skip) (b ∷ bytes) h = ap (λ t. b ∷ t) (lossy_from_valid skip bytes h)
lossy_from_valid zero (b ∷ bytes) h = ground (arith, lossy_from_valid (char_at b bytes).1 bytes)

-- Valid text is read unchanged by both functions.
pub from_utf8_lossy-from_utf8 :
    (bytes : Bytes) {t : Text} → from_utf8 bytes ≡ some t → from_utf8_lossy bytes ≡ t
from_utf8_lossy-from_utf8 bytes h =
    unfold from_utf8 from_utf8_lossy in ground (arith, lossy_from_valid 0 bytes)
