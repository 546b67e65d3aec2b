-- ===== src/Base/Str.antt =====
-- A Rust `String` is its UTF-8 bytes, and a `Vec<u8>` is a list of bytes: both are lists of
-- numbers. The operations are those of `str` that the program calls with ASCII patterns, where
-- bytes and characters agree.
pub mod Laws
use Prim.Native.Nat.{ℕ, zero, suc, ◌+◌, ◌-◌}
use Prim.Native.Char.{code}
use Prim.Native.String.{String}
use mathlib.Core.Bool.{Bool, true, false}
use mathlib.Core.Option.{Option, none, some}
use mathlib.Core.List.{List, [], ◌∷◌, ◌++◌, reverse}
use k8s_sidecar_rs.Base.Tests.{if◌then◌else◌, in_range, is_some}
use k8s_sidecar_rs.Base.Equality.{◌==◌, nat_eq, list_eq}

abbrev pub Bytes : Type 0
Bytes = List ℕ

abbrev pub Text : Type 0
Text = List ℕ

-- An ASCII literal of the source.
abbrev pub ascii : String → Text
ascii String.[] = []
ascii (String.◌∷◌ c s) = code c ∷ ascii s

-- `s.starts_with(prefix)`.
unfoldable pub starts_with : Text → Text → Bool
starts_with s [] = true
starts_with [] (p ∷ prefix) = false
starts_with (c ∷ s) (p ∷ prefix) = if c == p then starts_with s prefix else false

-- `s.strip_suffix(suffix)`: the text before the suffix.
unfoldable pub strip_suffix : Text → Text → Option Text
strip_suffix [] suffix = if [] == suffix then some [] else none
strip_suffix (c ∷ s) suffix =
    let rest = strip_suffix s suffix in
    if (c ∷ s) == suffix then some [] else elim rest [ none ↦ none | some t ↦ some (c ∷ t) ]

-- `s.ends_with(suffix)`.
unfoldable pub ends_with : Text → Text → Bool
unfolding strip_suffix
ends_with s suffix = is_some (strip_suffix s suffix)

-- `s.contains(c)` for an ASCII character.
unfoldable pub has_char : ℕ → Text → Bool
has_char c [] = false
has_char c (x ∷ s) = if x == c then true else has_char c s

-- Puts a character in front of the first piece.
abbrev pub cons_piece : ℕ → List Text → List Text
cons_piece c [] = (c ∷ []) ∷ []
cons_piece c (p ∷ pieces) = (c ∷ p) ∷ pieces

-- `s.split(sep)`: always at least one piece.
unfoldable pub split : ℕ → Text → List Text
split sep [] = [] ∷ []
split sep (c ∷ s) = let rest = split sep s in if c == sep then [] ∷ rest else cons_piece c rest

-- `s.split_once(sep)`.
unfoldable pub split_once : ℕ → Text → Option (Text × Text)
split_once sep [] = none
split_once sep (c ∷ s) =
    let rest = split_once sep s in
    if c == sep then some ([], s) else elim rest [ none ↦ none | some p ↦ some (c ∷ p.0, p.1) ]

-- `s.to_lowercase()` as far as a comparison with an ASCII literal without `k` can tell: no
-- other character has such an expansion.
unfoldable pub to_lowercase : Text → Text
to_lowercase [] = []
to_lowercase (c ∷ s) = (if in_range 65 90 c then c + 32 else c) ∷ to_lowercase s

-- `s.trim_end_matches(c)` for an ASCII character.
unfoldable pub drop_leading : ℕ → Text → Text
drop_leading c [] = []
drop_leading c (x ∷ s) = if x == c then drop_leading c s else x ∷ s

unfoldable pub trim_end_matches : ℕ → Text → Text
unfolding drop_leading
trim_end_matches c s = reverse (drop_leading c (reverse s))
