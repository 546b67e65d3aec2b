-- ===== src/Script/Repr.antt =====
-- src/script.rs, bytes_repr: the rendering loses nothing. `read_repr` reads a Python bytes literal in
-- single quotes as Python does, one character at a time.
use k8s_sidecar_rs.Base.{
  Text, Bytes, ascii, ℕ, ◌+◌, ◌-◌, ◌*◌, ◌/◌, ◌%◌, ◌<◌, Option, none, some, [], ◌∷◌, ◌++◌,
  append_assoc, ◌≡◌, refl, ap, ◌∙◌, arith, ltb, ◌==◌, nat_eq, list_eq, if◌then◌else◌,
}
use k8s_sidecar_rs.Script.{hex_digit, escape_byte, escape_bytes, bytes_repr}

-- Outside an escape, after a backslash, after `\x`, and after the first of two digits.
pub data Reading : Type 0 where
  plain escaped high : Reading
  low : ℕ → Reading

abbrev pub digit : ℕ → ℕ
digit c = if ltb c b'a' then c - b'0' else c - b'a' + 10

abbrev pub unescaped : ℕ → ℕ
unescaped c =
    if c == b'n' then b'\n' else if c == b'r' then b'\r' else if c == b't' then b'\t' else c

abbrev pub cons : ℕ → Option Bytes → Option Bytes
cons b none = none
cons b (some bytes) = some (b ∷ bytes)

abbrev pub at_end : Text → Option Bytes
at_end [] = some []
at_end (c ∷ s) = none

unfoldable pub read_bytes : Reading → Text → Option Bytes
read_bytes state [] = none
read_bytes plain (c ∷ s) =
    let rest = read_bytes plain s in
    let escape = read_bytes escaped s in
    if c == b'\'' then at_end s else if c == b'\\' then escape else cons c rest
read_bytes escaped (c ∷ s) =
    let rest = read_bytes plain s in
    let digits = read_bytes high s in if c == b'x' then digits else cons (unescaped c) rest
read_bytes high (c ∷ s) = read_bytes (low (digit c)) s
read_bytes (low d) (c ∷ s) = cons (d * 16 + digit c) (read_bytes plain s)

unfoldable pub read_repr : Text → Option Bytes
read_repr [] = none
read_repr (c ∷ []) = none
read_repr (c ∷ quote ∷ s) =
    if c == b'b' then (if quote == b'\'' then read_bytes plain s else none) else none

abbrev pub AreBytes : Bytes → Type 0
AreBytes [] = Unit
AreBytes (b ∷ bytes) = (b < 256) × AreBytes bytes

digit-hex_digit : (n : ℕ) → n < 16 → digit (hex_digit n) ≡ n
digit-hex_digit n h = ground arith

two_digits : (b : ℕ) → b < 256 → digit (hex_digit (b / 16)) * 16 + digit (hex_digit (b % 16)) ≡ b
two_digits b h =
    omega (arith, digit-hex_digit (b / 16) (omega arith), digit-hex_digit (b % 16) (omega arith))

read_bytes-escape_byte :
    (b : ℕ) (s : Text)
    → b < 256
    → read_bytes plain (escape_byte b ++ s) ≡ cons b (read_bytes plain s)
unfolding read_bytes escape_byte
read_bytes-escape_byte b s h = ground (arith, two_digits b)

read_bytes-escape_bytes :
    (bytes : Bytes)
    → AreBytes bytes
    → read_bytes plain (escape_bytes bytes ++ ascii "'") ≡ some bytes
unfolding escape_bytes
read_bytes-escape_bytes [] h = unfold read_bytes in refl
read_bytes-escape_bytes (b ∷ bytes) h =
    ap (read_bytes plain) (append_assoc (escape_byte b) (escape_bytes bytes) (ascii "'"))
    ∙ read_bytes-escape_byte b _ h.0
    ∙ ap (cons b) (read_bytes-escape_bytes bytes h.1)

-- Reading what `bytes_repr` prints for a list of bytes, as Python reads a bytes literal, gives the
-- bytes back.
pub read_repr-bytes_repr :
    (bytes : Bytes) → AreBytes bytes → read_repr (bytes_repr bytes) ≡ some bytes
unfolding bytes_repr read_repr
read_repr-bytes_repr bytes h = read_bytes-escape_bytes bytes h
