-- ===== src/Main/Spelling.antt =====
-- src/main.rs, parse_flags: the ways to write a flag.
use k8s_sidecar_rs.Base.{
  Text, ℕ, false, none, some, List, [], ◌∷◌, ◌++◌, Result, ok, err, ◌≡◌, refl, ap, ◌∙◌, arith,
  and_then, nat_eq,
}
use mathlib.Core.Path.{fun_ext}
use k8s_sidecar_rs.Base.Str.{split_once, has_char}
use k8s_sidecar_rs.Main.Flags.{
  Flags, no_flags, halves, set_flag, take_flag, parse_from, parse_flags,
}

split_once-append :
    (sep : ℕ) (a s : Text) → has_char sep a ≡ false → split_once sep (a ++ sep ∷ s) ≡ some (a, s)
unfolding split_once has_char
split_once-append sep [] s h = ground arith
split_once-append sep (c ∷ a) s h = ground (arith, split_once-append sep a s)

split_once-none : (sep : ℕ) (a : Text) → has_char sep a ≡ false → split_once sep a ≡ none
unfolding split_once has_char
split_once-none sep [] h = refl
split_once-none sep (c ∷ a) h = ground (arith, split_once-none sep a)

-- The arguments that write these flags with their values, each as `flag=value` or as two arguments.
pub data Spelled : List (Text × Text) → List Text → Type 0 where
  done : Spelled [] []
  joined :
      {flag value : Text} {pairs : List (Text × Text)} {args : List Text}
      → has_char b'=' flag ≡ false
      → Spelled pairs args
      → Spelled ((flag, value) ∷ pairs) ((flag ++ b'=' ∷ value) ∷ args)
  apart :
      {flag value : Text} {pairs : List (Text × Text)} {args : List Text}
      → has_char b'=' flag ≡ false
      → Spelled pairs args
      → Spelled ((flag, value) ∷ pairs) (flag ∷ value ∷ args)

-- The flags set one after the other, up to the first unknown one.
abbrev pub set_all : Flags → List (Text × Text) → Result Flags Text
set_all flags [] = ok flags
set_all flags ((flag, value) ∷ pairs) =
    and_then (set_flag flag (some value) flags) (λ flags'. set_all flags' pairs)

and_then-ok : {E A : Type 0} (r : Result A E) → r ≡ and_then r ok
and_then-ok (ok a) = refl
and_then-ok (err e) = refl

parse_from-joined :
    (flags : Flags) (arg flag value : Text) (args : List Text)
    → split_once b'=' arg ≡ some (flag, value)
    → parse_from flags (arg ∷ args)
      ≡ and_then (set_flag flag (some value) flags) (λ flags'. parse_from flags' args)
unfolding parse_from
parse_from-joined flags arg flag value [] h = rw h (and_then-ok _)
parse_from-joined flags arg flag value (next ∷ args) h =
    ap
      (λ o.
        take_flag flags next (halves arg o) (λ f. parse_from f (next ∷ args))
          (λ f. parse_from f args))
      h

parse_from-apart :
    (flags : Flags) (flag value : Text) (args : List Text)
    → split_once b'=' flag ≡ none
    → parse_from flags (flag ∷ value ∷ args)
      ≡ and_then (set_flag flag (some value) flags) (λ flags'. parse_from flags' args)
unfolding parse_from
parse_from-apart flags flag value args h =
    ap
      (λ o.
        take_flag flags value (halves flag o) (λ f. parse_from f (value ∷ args))
          (λ f. parse_from f args))
      h

parse_from-Spelled :
    {pairs : List (Text × Text)} {args : List Text}
    → Spelled pairs args
    → (flags : Flags) → parse_from flags args ≡ set_all flags pairs
unfolding parse_from
parse_from-Spelled done flags = refl
parse_from-Spelled (joined {flag} {value} {args} h s) flags =
    parse_from-joined flags _ flag value args (split_once-append b'=' flag value h)
    ∙ ap (and_then (set_flag flag (some value) flags)) (fun_ext (parse_from-Spelled s))
parse_from-Spelled (apart {flag} {value} {args} h s) flags =
    parse_from-apart flags flag value args (split_once-none b'=' flag h)
    ∙ ap (and_then (set_flag flag (some value) flags)) (fun_ext (parse_from-Spelled s))

-- Flags with their values, the flags without an equals sign, are read alike however each one is
-- written, as `flag=value` or as two arguments: they are set in order, so that the last value of a
-- flag stays, up to the first unknown flag, which is the error.
pub parse_flags-Spelled :
    {pairs : List (Text × Text)} {args : List Text}
    → Spelled pairs args
    → parse_flags args ≡ set_all no_flags pairs
unfolding parse_flags
parse_flags-Spelled s = parse_from-Spelled s no_flags
