-- ===== src/Base/Words.antt =====
-- `str::lines().next()` and `str::split_whitespace`.
pub mod Laws
use Prim.Native.Nat.{ℕ, zero, suc, ◌-◌}
use mathlib.Core.Bool.{Bool, true, false, not}
use mathlib.Core.Option.{Option, none, some}
use mathlib.Core.List.{List, [], ◌∷◌}
use k8s_sidecar_rs.Base.Tests.{if◌then◌else◌}
use k8s_sidecar_rs.Base.Equality.{◌==◌, nat_eq, list_eq}
use k8s_sidecar_rs.Base.Str.{Text, cons_piece}
use k8s_sidecar_rs.Base.Trim.{white1, white2, white3}

-- The text up to the first line feed, without a carriage return in front of it.
unfoldable pub line_of : Text → Text
line_of [] = []
line_of (c ∷ []) = if c == b'\n' then [] else c ∷ []
line_of (c ∷ d ∷ s) =
    let rest = line_of (d ∷ s) in
    if c == b'\n'
    then []
    else if c == b'\r'
    then (if d == b'\n' then [] else c ∷ rest)
    else c ∷ rest

-- The empty text has no line.
abbrev pub first_line : Text → Option Text
first_line [] = none
first_line (c ∷ s) = some (line_of (c ∷ s))

-- How many bytes the white space character has with which the text begins: 0 if there is none.
unfoldable pub white_at : Text → ℕ
white_at [] = 0
white_at (a ∷ []) = if white1 a then 1 else 0
white_at (a ∷ b ∷ []) = if white1 a then 1 else if white2 a b then 2 else 0
white_at (a ∷ b ∷ c ∷ s) =
    if white1 a then 1 else if white2 a b then 2 else if white3 a b c then 3 else 0

-- The pieces between white space characters. `skip` bytes are still to be passed over.
unfoldable pub pieces_from : ℕ → Text → List Text
pieces_from skip [] = [] ∷ []
pieces_from (suc skip) (c ∷ s) = pieces_from skip s
pieces_from zero (c ∷ s) =
    let n = white_at (c ∷ s) in
    let word = cons_piece c (pieces_from 0 s) in
    let next = pieces_from (n - 1) s in if n == 0 then word else [] ∷ next

unfoldable pub non_empty_pieces : List Text → List Text
non_empty_pieces [] = []
non_empty_pieces (p ∷ pieces) =
    let rest = non_empty_pieces pieces in if p == [] then rest else p ∷ rest

unfoldable pub split_whitespace : Text → List Text
unfolding pieces_from
split_whitespace s = non_empty_pieces (pieces_from 0 s)

-- `.nth(1)`
abbrev pub second : List Text → Option Text
second [] = none
second (a ∷ []) = none
second (a ∷ b ∷ words) = some b
