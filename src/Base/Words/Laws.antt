-- ===== src/Base/Words/Laws.antt =====
-- How a line of printable words is split.
use Prim.Native.Nat.{ℕ, ◌≤◌}
use mathlib.Core.Path.{◌≡◌, refl, ap, ◌∙◌}
use mathlib.Core.Logic.{◌≢◌}
use mathlib.Core.Option.{some}
use mathlib.Core.List.{List, [], ◌∷◌, ◌++◌}
use native.Mathlib.Omega.{arith}
use k8s_sidecar_rs.Base.Equality.{list_eq, nat_eq, list_beq_iff}
use k8s_sidecar_rs.Base.Str.{Text}
use k8s_sidecar_rs.Base.Words.{
  line_of, white_at, pieces_from, non_empty_pieces, split_whitespace, second,
}

-- Printable ASCII characters from `lo` on: 33 leaves the space out.
abbrev pub Printable : ℕ → Text → Type 0
Printable lo [] = Unit
Printable lo (c ∷ s) = (lo ≤ c) × (c ≤ 126) × Printable lo s

line_of-cons : (c d : ℕ) (s : Text) → 32 ≤ c → line_of (c ∷ d ∷ s) ≡ c ∷ line_of (d ∷ s)
unfolding line_of
line_of-cons c d s h = ground arith

line_of-append :
    (a : Text) (d : ℕ) (s : Text) → Printable 32 a → line_of (a ++ d ∷ s) ≡ a ++ line_of (d ∷ s)
line_of-append [] d s h = refl
line_of-append (c ∷ []) d s h = line_of-cons c d s h.0
line_of-append (c ∷ e ∷ a) d s h =
    line_of-cons c e (a ++ d ∷ s) h.0 ∙ ap (λ t. c ∷ t) (line_of-append (e ∷ a) d s h.2)

line_of-space : (s : Text) → (t : Text) × (line_of (b' ' ∷ s) ≡ b' ' ∷ t)
unfolding line_of
line_of-space [] = ([], refl)
line_of-space (d ∷ s) = (line_of (d ∷ s), refl)

white_at-none : (c : ℕ) (s : Text) → 33 ≤ c → c ≤ 126 → white_at (c ∷ s) ≡ 0
unfolding white_at
white_at-none c [] lo hi = ground arith
white_at-none c (d ∷ []) lo hi = ground arith
white_at-none c (d ∷ e ∷ s) lo hi = ground arith

white_at-space : (s : Text) → white_at (b' ' ∷ s) ≡ 1
unfolding white_at
white_at-space [] = refl
white_at-space (d ∷ []) = refl
white_at-space (d ∷ e ∷ s) = refl

-- A printable word before a space is a piece of its own.
pieces_from-word :
    (a s : Text) → Printable 33 a → pieces_from 0 (a ++ b' ' ∷ s) ≡ a ∷ pieces_from 0 s
unfolding pieces_from
pieces_from-word [] s h = rw (white_at-space s) refl
pieces_from-word (c ∷ a) s h =
    rw (white_at-none c (a ++ b' ' ∷ s) h.0 h.1) (rw (pieces_from-word a s h.2) refl)

non_empty_pieces-cons :
    (p : Text) (pieces : List Text)
    → p ≢ []
    → non_empty_pieces (p ∷ pieces) ≡ p ∷ non_empty_pieces pieces
unfolding non_empty_pieces
non_empty_pieces-cons p pieces ne = ground (arith, list_beq_iff p [])

Printable-weaken : (a : Text) → Printable 33 a → Printable 32 a
Printable-weaken [] h = h
Printable-weaken (c ∷ a) h = (omega (arith, h.0), h.1, Printable-weaken a h.2)

-- A line of two printable words and a space, with anything after it: the second word.
pub second-line_of :
    (m p s : Text)
    → Printable 33 m
    → Printable 33 p
    → m ≢ []
    → p ≢ []
    → second (split_whitespace (line_of (m ++ b' ' ∷ (p ++ b' ' ∷ s)))) ≡ some p
unfolding split_whitespace
second-line_of m p s hm hp nm np =
    let (t, e) = line_of-space s in
    let line : line_of (m ++ b' ' ∷ (p ++ b' ' ∷ s)) ≡ m ++ b' ' ∷ (p ++ b' ' ∷ t) =
      line_of-append m b' ' (p ++ b' ' ∷ s) (Printable-weaken m hm)
      ∙ ap (λ u. m ++ u)
          (line_of-append (b' ' ∷ p) b' ' s (omega arith, omega arith, Printable-weaken p hp)
            ∙ ap (λ u. b' ' ∷ (p ++ u)) e) in
    rw
      (
        line,
        pieces_from-word m (p ++ b' ' ∷ t) hm,
        pieces_from-word p t hp,
        non_empty_pieces-cons m (p ∷ pieces_from 0 t) nm,
        non_empty_pieces-cons p (pieces_from 0 t) np,
      )
      refl
