-- ===== src/Examples/Logs.antt =====
-- The theorems about the logger and the health server at concrete inputs.
use k8s_sidecar_rs.Base.{
  Text, Bytes, ascii, ℕ, ◌+◌, ◌≤◌, ◌<◌, true, false, not, ◌&&◌, none, some, Option, [], ◌∷◌, ◌++◌,
  ◌≡◌, ◌≢◌, ◌⊎◌, refl, ap, ◌∙◌, ◌==◌, arith, nat_eq, list_eq, list_beq, list_beq_iff, unwrap_or,
  or_else, if◌then◌else◌,
}
use k8s_sidecar_rs.Base.Dict
use k8s_sidecar_rs.Base.Dict.{Dict, get-insert, get-remove}
use k8s_sidecar_rs.Base.Str.{has_char}
use k8s_sidecar_rs.Base.Utf8.{from_utf8}
use k8s_sidecar_rs.Base.Words.Laws.{Printable}
use k8s_sidecar_rs.Logger.Format.{logfmt_value, needs_quotes, newline}
use k8s_sidecar_rs.Logger.Logfmt.{read_value, read_value-logfmt_value, logfmt_value-one_line}
use k8s_sidecar_rs.Logger.Emit.{LogFiles, bak, is_full, text_len, write_log}
use k8s_sidecar_rs.Logger.Backups.{LogLaws}
use k8s_sidecar_rs.Logger.Rollover.{opened_at, write_log-rollover}
use k8s_sidecar_rs.Logger.Bounds.{write_log-bounded}
use k8s_sidecar_rs.Health.Status.{initial, status_body}
use k8s_sidecar_rs.Health.Server.{handle, render, health_path, not_found}
use k8s_sidecar_rs.Health.Requests.{request_line, handle-request_line}
use k8s_sidecar_rs.Health.Listen.{sort_addrs, head, first_v6}
use k8s_sidecar_rs.Health.Families.{sort_addrs-first}

read_value-logfmt_value_example :
    read_value (logfmt_value (ascii "a \"b\"")) ≡ some (ascii "a \"b\"")
read_value-logfmt_value_example = read_value-logfmt_value (ascii "a \"b\"")

-- Two lines without a space.
abbrev two_lines : Text
two_lines = b'a' ∷ newline ∷ b'b' ∷ []

logfmt_value-one_line_example :
    has_char newline (logfmt_value two_lines)
    ≡ (has_char newline two_lines && not (needs_quotes two_lines))
logfmt_value-one_line_example = logfmt_value-one_line two_lines

sort_addrs-first_example :
    head (λ b. b) (sort_addrs (λ b. b) (false ∷ true ∷ []))
    ≡ or_else (first_v6 (λ b. b) (false ∷ true ∷ [])) (head (λ b. b) (false ∷ true ∷ []))
sort_addrs-first_example = sort_addrs-first (λ b. b) (false ∷ true ∷ [])

abbrev get : Text
get = ascii "GET"

abbrev rest : Text
rest = ascii "HTTP/1.1\r\n\r\n"

Printable-get : Printable 33 get
Printable-get = ground arith

Printable-path : Printable 33 health_path
Printable-path = ground arith

handle-request_line_example :
    handle 0 initial (some (request_line get health_path rest))
    ≡ some (render (if health_path == health_path then status_body 0 initial else not_found))
unfolding from_utf8
handle-request_line_example =
    handle-request_line 0 initial get health_path rest Printable-get Printable-path (λ e. cc)
      (λ e. cc) refl

-- A disk of log files in memory.
abbrev moved_to : Dict Text Bytes → Text → Text → Option Bytes → Dict Text Bytes
moved_to d p q none = d
moved_to d p q (some b) = Dict.insert (Dict.remove d p) q b

abbrev len_of : Option Bytes → Option ℕ
len_of none = none
len_of (some b) = some (text_len b)

abbrev log_files : LogFiles
log_files = record {
  Disk = Dict Text Bytes;
  remove_file = λ d p. Dict.remove d p;
  rename = λ d p q. moved_to d p q (Dict.get d p);
  open_append = λ d p. (true, Dict.insert d p (unwrap_or (Dict.get d p) []));
  append = λ d p b. Dict.insert d p (unwrap_or (Dict.get d p) [] ++ b);
  metadata_len = λ d p. len_of (Dict.get d p);
}

get-move :
    (d : Dict Text Bytes) (p q x : Text) (b : Bytes)
    → p ≢ q
    → Dict.get (Dict.insert (Dict.remove d p) q b) x
      ≡ (if x == q then some b else if x == p then none else Dict.get d x)
get-move d p q x b ne =
    get-insert (Dict.remove d p) q x b
    ∙ rw (get-remove d p x)
        (ground (arith, list_beq_iff x q, list_beq_iff q x, list_beq_iff x p, list_beq_iff p x))

get-insert_flipped :
    (d : Dict Text Bytes) (p x : Text) (b : Bytes)
    → Dict.get (Dict.insert d p b) x ≡ (if x == p then some b else Dict.get d x)
get-insert_flipped d p x b = get-insert d p x b ∙ ground (arith, list_beq_iff x p, list_beq_iff p x)

flip : (p q : Text) (o : Option Bytes) → (if p == q then none else o) ≡ (if q == p then none else o)
flip p q o = ground (arith, list_beq_iff p q, list_beq_iff q p)

renamed-there :
    (d : Dict Text Bytes) (p q x : Text) (b : Bytes)
    → Dict.get d p ≡ some b
    → p ≢ q
    → Dict.get (moved_to d p q (Dict.get d p)) x
      ≡ (if x == q then some b else if x == p then none else Dict.get d x)
renamed-there d p q x b there ne = rw there (get-move d p q x b ne)

renamed-missing :
    (d : Dict Text Bytes) (p q x : Text)
    → Dict.get d p ≡ none
    → Dict.get (moved_to d p q (Dict.get d p)) x ≡ Dict.get d x
renamed-missing d p q x missing = rw missing refl

abbrev log_laws : LogLaws log_files
log_laws = record {
  content = λ d p. Dict.get d p;
  content-remove_file = λ d p q. get-remove d p q ∙ flip p q (Dict.get d q);
  content-rename = λ d p q x b there ne. renamed-there d p q x b there ne;
  rename_missing = λ d p q x missing. renamed-missing d p q x missing;
  metadata_len-content = λ d p b there. ap len_of there;
  open_ok = λ d p. refl;
  content-open_append = λ d p x. get-insert_flipped d p x (unwrap_or (Dict.get d p) []);
  content-append = λ d p x b old there. rw there (get-insert_flipped d p x (old ++ b));
}

abbrev log_path : Text
log_path = ascii "/l"

abbrev log_disk : Dict Text Bytes
log_disk = (log_path, ascii "123") ∷ (ascii "/l.1", ascii "0") ∷ []

write_log-rollover_example :
    let r = opened_at log_files log_laws log_path 4 2 in
    let d = (write_log log_files r (ascii "45") log_disk).1 in
    (Dict.get d log_path ≡ some (ascii "45"))
    × (Dict.get d (bak log_path 1) ≡ Dict.get log_disk log_path)
    × ((j : ℕ)
        → 1 ≤ j
        → j < 2
        → Dict.get d (bak log_path (j + 1)) ≡ Dict.get log_disk (bak log_path j))
    × ((x : Text)
        → x ≢ log_path
        → ((k : ℕ) → 1 ≤ k → k ≤ 2 → x ≢ bak log_path k)
        → Dict.get d x ≡ Dict.get log_disk x)
unfolding is_full text_len Dict.get list_beq
write_log-rollover_example =
    write_log-rollover log_files log_laws log_path 4 1 (ascii "45") log_disk (omega arith) refl

write_log-bounded_example :
    let d =
      (write_log log_files (opened_at log_files log_laws log_path 9 2) (ascii "45") log_disk).1 in
    ((Dict.get d log_path ≡ some (ascii "123" ++ ascii "45"))
      × (text_len (ascii "123" ++ ascii "45") ≤ 9))
    ⊎ (Dict.get d log_path ≡ some (ascii "45"))
unfolding Dict.get list_beq
write_log-bounded_example =
    write_log-bounded log_files log_laws log_path 9 1 (ascii "45") log_disk (ascii "123")
      (omega arith) (omega arith) refl
