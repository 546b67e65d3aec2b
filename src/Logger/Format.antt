-- ===== src/Logger/Format.antt =====
-- src/logger.rs: `Level::parse`, `logfmt_value`, and the line that `emit` writes.
use k8s_sidecar_rs.Base.{
  Text, ascii, ℕ, Bool, ◌||◌, ◌&&◌, Option, none, some, [], ◌∷◌, ◌++◌, ◌==◌, nat_eq, list_eq,
  in_range, ◌-◌, if◌then◌else◌,
}
use k8s_sidecar_rs.Base.Str.{has_char}
use k8s_sidecar_rs.Logger.Level.{Level, debug, info, warning, error, critical, name}

abbrev upper_byte : ℕ → ℕ
upper_byte c = if in_range b'a' b'z' c then c - 32 else c

-- `s.to_uppercase()` as far as a comparison with an ASCII literal without `S` and `J` and without the
-- letters of a ligature in a row can tell: beside the ASCII letters only U+0131, the bytes 0xC4 0xB1,
-- has such an expansion, `I`.
unfoldable pub to_uppercase : Text → Text
to_uppercase [] = []
to_uppercase (c ∷ []) = upper_byte c ∷ []
to_uppercase (c ∷ d ∷ s) =
    let after1 = to_uppercase (d ∷ s) in
    let after2 = to_uppercase s in
    if c == 0xC4 && d == 0xB1 then b'I' ∷ after2 else upper_byte c ∷ after1

unfoldable pub level_named : Text → Option Level
level_named s =
    if s == ascii "DEBUG"
    then some debug
    else if s == ascii "INFO"
    then some info
    else if s == ascii "WARNING" || s == ascii "WARN"
    then some warning
    else if s == ascii "ERROR"
    then some error
    else if s == ascii "CRITICAL" || s == ascii "FATAL"
    then some critical
    else none

unfoldable pub parse : Text → Option Level
parse s = level_named (to_uppercase s)

pub data Format : Type 0 where
  json logfmt : Format

-- `s.replace(c, t)` for an ASCII character.
unfoldable pub replace : ℕ → Text → Text → Text
replace c t [] = []
replace c t (x ∷ s) = (if x == c then t else x ∷ []) ++ replace c t s

abbrev pub backslash : ℕ
backslash = 92

abbrev pub quote : ℕ
quote = 34

abbrev pub newline : ℕ
newline = 10

abbrev pub needs_quotes : Text → Bool
needs_quotes v = v == [] || has_char b' ' v || has_char b'=' v || has_char quote v

unfoldable pub escaped : Text → Text
unfolding replace
escaped v =
    replace newline (backslash ∷ b'n' ∷ [])
      (replace quote (backslash ∷ quote ∷ []) (replace backslash (backslash ∷ backslash ∷ []) v))

unfoldable pub logfmt_value : Text → Text
unfolding escaped
logfmt_value v = if needs_quotes v then quote ∷ (escaped v ++ quote ∷ []) else v

-- `to_json` is serde_json::to_string of a text.
unfoldable pub line : (to_json : Text → Text) → Format → Text → Level → Text → Text
line to_json json ts level msg =
    ascii "{\"time\": "
    ++ to_json ts
    ++ ascii ", \"level\": "
    ++ to_json (name level)
    ++ ascii ", \"msg\": "
    ++ to_json msg
    ++ ascii "}"
    ++ newline ∷ []
line to_json logfmt ts level msg =
    ascii "time="
    ++ ts
    ++ ascii " level="
    ++ name level
    ++ ascii " msg="
    ++ logfmt_value msg
    ++ newline ∷ []
