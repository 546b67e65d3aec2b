-- ===== src/Logger/Logfmt.antt =====
-- src/logger.rs, logfmt_value: a value can be read back, and when it stays on one line.
use mathlib.Core.Option
use k8s_sidecar_rs.Base.{
  Text, ℕ, Bool, false, not, ◌||◌, ◌&&◌, Option, none, some, [], ◌∷◌, ◌++◌, ◌==◌, ◌≡◌, refl, ◌∙◌,
  sym, ap, arith, nat_eq, list_eq, list_beq, beq→eq, inl, inr, Bool-cases, if◌then◌else◌,
}
use k8s_sidecar_rs.Base.Str.{has_char}
use k8s_sidecar_rs.Logger.Format.{
  replace, backslash, quote, newline, needs_quotes, escaped, logfmt_value,
}

-- The three replacements, one after the other, escape each character by itself.
abbrev escape_char : ℕ → Text
escape_char c =
    if c == backslash
    then backslash ∷ backslash ∷ []
    else if c == quote
    then backslash ∷ quote ∷ []
    else if c == newline
    then backslash ∷ b'n' ∷ []
    else c ∷ []

abbrev escape : Text → Text
escape [] = []
escape (c ∷ s) = escape_char c ++ escape s

escaped-escape : (v : Text) → escaped v ≡ escape v
unfolding escaped replace
escaped-escape [] = refl
escaped-escape (c ∷ s) = ground (arith, escaped-escape s)

-- Reads a quoted value up to its closing quote. Nothing may follow it.
abbrev pub unescape : Text → Option Text
unescape [] = none
unescape (c ∷ []) = if c == quote then some [] else none
unescape (c ∷ d ∷ s) =
    let after1 = unescape (d ∷ s) in
    let after2 = unescape s in
    if c == quote
    then none
    else if c == backslash
    then elim after2 [ none ↦ none | some t ↦ some ((if d == b'n' then newline else d) ∷ t) ]
    else elim after1 [ none ↦ none | some t ↦ some (c ∷ t) ]

abbrev pub read_value : Text → Option Text
read_value [] = none
read_value (c ∷ s) = let text = unescape s in if c == quote then text else some (c ∷ s)

unescape-plain :
    (c : ℕ) (t : Text)
    → (c == quote) ≡ false
    → (c == backslash) ≡ false
    → unescape (c ∷ t) ≡ Option.map (λ u. c ∷ u) (unescape t)
unescape-plain c [] q b = rw q refl
unescape-plain c (d ∷ t) q b = ground (arith)

unescape-escape : (s : Text) → unescape (escape s ++ quote ∷ []) ≡ some s
unescape-escape [] = refl
unescape-escape (c ∷ s) = elim (Bool-cases (c == backslash)) [
  | inl b ↦ rw b (rw (unescape-escape s) (ap (λ x. some (x ∷ s)) (sym (beq→eq c backslash b))))
  | inr nb ↦ elim (Bool-cases (c == quote)) [
    | inl q ↦ rw (nb, q) (rw (unescape-escape s) (ap (λ x. some (x ∷ s)) (sym (beq→eq c quote q))))
    | inr nq ↦ elim (Bool-cases (c == newline)) [
      | inl n ↦
          rw (nb, nq, n)
            (rw (unescape-escape s) (ap (λ x. some (x ∷ s)) (sym (beq→eq c newline n))))
      | inr nn ↦
          rw (nb, nq, nn)
            (unescape-plain c (escape s ++ quote ∷ []) nq nb
              ∙ ap (Option.map (λ u. c ∷ u)) (unescape-escape s))
    ]
  ]
]

or_last : (a b c d : Bool) → (a || b || c || d) ≡ false → d ≡ false
or_last a b c d h = ground arith

has_char-first : (q c : ℕ) (s : Text) → has_char q (c ∷ s) ≡ false → (c == q) ≡ false
unfolding has_char
has_char-first q c s h = ground arith

read_value-plain : (v : Text) → needs_quotes v ≡ false → read_value v ≡ some v
unfolding list_beq
read_value-plain [] h = cc
read_value-plain (c ∷ s) h =
    let last = or_last ((c ∷ s) == []) (has_char b' ' (c ∷ s)) (has_char b'=' (c ∷ s)) _ h in
    rw (has_char-first quote c s last) refl

-- Whatever the value is, reading what is written for it gives it back: the text between the quotes
-- with its escapes undone, or the text itself if it does not begin with a quote.
pub read_value-logfmt_value : (v : Text) → read_value (logfmt_value v) ≡ some v
unfolding logfmt_value
read_value-logfmt_value v = elim (Bool-cases (needs_quotes v)) [
  | inl quoted ↦ rw quoted (rw (escaped-escape v) (unescape-escape v))
  | inr plain ↦ rw plain (read_value-plain v plain)
]

has_char-append : (c : ℕ) (s t : Text) → has_char c (s ++ t) ≡ (has_char c s || has_char c t)
unfolding has_char
has_char-append c [] t = refl
has_char-append c (x ∷ s) t = ground (arith, has_char-append c s t)

has_char-escape : (s : Text) → has_char newline (escape s) ≡ false
unfolding has_char
has_char-escape [] = refl
has_char-escape (c ∷ s) = ground (arith, has_char-escape s)

-- What is written for a value has a line feed exactly if the value has one and is not quoted.
pub logfmt_value-one_line :
    (v : Text) → has_char newline (logfmt_value v) ≡ (has_char newline v && not (needs_quotes v))
unfolding logfmt_value has_char
logfmt_value-one_line v = elim (Bool-cases (needs_quotes v)) [
  | inl quoted ↦ rw quoted (
      rw (escaped-escape v)
        (ground (arith, has_char-append newline (escape v) (quote ∷ []), has_char-escape v)))
  | inr plain ↦ rw plain (ground (arith))
]
