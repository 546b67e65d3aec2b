-- ===== src/Logger/Init.antt =====
-- src/logger.rs: `init`. YAML is a parameter: a parsed document answers what the string or the number
-- at a path of keys is.
use mathlib.Core.Option
use k8s_sidecar_rs.Base.{
  Text, ascii, ℕ, ◌%◌, Bool, true, not, ◌||◌, Option, none, some, List, [], ◌∷◌, ◌==◌, nat_eq,
  list_eq, Result, ok, err, filter_option, unwrap_or, or_else, is_some, if◌then◌else◌,
}
use k8s_sidecar_rs.Base.Str.{starts_with}
use k8s_sidecar_rs.Base.Number.{u32_limit}
use k8s_sidecar_rs.Logger.Level.{Level, info}
use k8s_sidecar_rs.Logger.Format.{Format, json, logfmt, parse, to_uppercase}
use k8s_sidecar_rs.Logger.Emit.{LogFiles, Rotating, Sink, stderr, rotating_file, Logger}

-- `s.contains(t)`.
unfoldable pub contains_text : Text → Text → Bool
contains_text [] t = t == []
contains_text (c ∷ s) t = let rest = contains_text s t in starts_with (c ∷ s) t || rest

-- serde_yaml, the environment, and the calls that only the setup makes.
pub record LogHost (F : LogFiles) : Type 1 where
  pub var : Text → Option Text
  pub read_to_string : F.Disk → Text → Option Text
  pub create_parent : F.Disk → Text → F.Disk
  pub Yaml : Type 0
  pub from_str : Text → Option Yaml
  pub str_at : Yaml → List Text → Option Text
  pub u64_at : Yaml → List Text → Option ℕ

module _ (F : LogFiles) (E : LogHost F) where
  abbrev handler : Text → List Text
  handler key = ascii "handlers" ∷ ascii "console" ∷ key ∷ []

  abbrev env_level : Level
  env_level = unwrap_or (Option.bind (E.var (ascii "LOG_LEVEL")) parse) info

  abbrev is_logfmt : Text → Bool
  is_logfmt s = to_uppercase s == ascii "LOGFMT"

  abbrev env_format : Format
  env_format = if is_logfmt (unwrap_or (E.var (ascii "LOG_FORMAT")) []) then logfmt else json

  abbrev in_utc : Bool
  in_utc = to_uppercase (unwrap_or (E.var (ascii "LOG_TZ")) []) == ascii "UTC"

  -- The root's level, or the handler's if the root has no string there. A level that is not known
  -- leaves the one of the environment.
  unfoldable pub level_of : E.Yaml → Level
  level_of doc =
      unwrap_or
        (Option.bind
          (or_else (E.str_at doc (ascii "root" ∷ ascii "level" ∷ []))
            (E.str_at doc (handler (ascii "level"))))
          parse)
        env_level

  abbrev format_named : Text → Option Text → Format
  format_named fmt_name (some cls) = if contains_text cls (ascii "Logfmt") then logfmt else json
  format_named fmt_name none =
      if contains_text (to_uppercase fmt_name) (ascii "LOGFMT") then logfmt else env_format

  unfoldable pub format_of : E.Yaml → Format
  format_of doc = elim (E.str_at doc (handler (ascii "formatter"))) [
    | none ↦ env_format
    | some fmt_name ↦
        format_named fmt_name (E.str_at doc (ascii "formatters" ∷ fmt_name ∷ ascii "()" ∷ []))
  ]

  -- The file name, if the handler's class is a file handler.
  abbrev log_file : E.Yaml → Option Text
  log_file doc =
      if is_some (
        filter_option (λ (c : Text). contains_text c (ascii "FileHandler"))
          (E.str_at doc (handler (ascii "class"))))
      then E.str_at doc (handler (ascii "filename"))
      else none

  -- `as u32` cuts the number of backups.
  abbrev rotating_of : E.Yaml → Text → Rotating
  rotating_of doc filename = record {
    path = filename;
    max_bytes = unwrap_or (E.u64_at doc (handler (ascii "maxBytes"))) 0;
    backup_count = unwrap_or (E.u64_at doc (handler (ascii "backupCount"))) 0 % u32_limit;
    is_open = true;
  }

  -- The exit code of a log file that cannot be opened is 2.
  unfoldable pub sink_of : E.Yaml → F.Disk → Result Sink ℕ × F.Disk
  sink_of doc d = elim (log_file doc) [
    | none ↦ (ok stderr, d)
    | some filename ↦
        let (opened, d') = F.open_append (E.create_parent d filename) filename in
        (if opened then ok (rotating_file (rotating_of doc filename)) else err 2, d')
  ]

  abbrev logger_of : E.Yaml → Sink → Logger
  logger_of doc sink = record {
    level = level_of doc;
    format = format_of doc;
    utc = in_utc;
    sink = sink;
  }

  unfoldable pub configured : E.Yaml → F.Disk → Result Logger ℕ × F.Disk
  configured doc d =
      let (sink, d') = sink_of doc d in
      (elim sink [ ok s ↦ ok (logger_of doc s) | err c ↦ err c ], d')

  abbrev parsed : Option E.Yaml → F.Disk → Result Logger ℕ × F.Disk
  parsed none d = (err 2, d)
  parsed (some doc) d = configured doc d

  abbrev loaded : Option Text → F.Disk → Result Logger ℕ × F.Disk
  loaded none d = (err 1, d)
  loaded (some text) d = parsed (E.from_str text) d

  -- The logger, or the exit code: 1 for a configuration file that cannot be read, 2 for one that is no
  -- YAML or whose log file cannot be opened.
  unfoldable pub init_logger : F.Disk → Result Logger ℕ × F.Disk
  init_logger d = elim (filter_option (λ (p : Text). not (p == [])) (E.var (ascii "LOG_CONFIG"))) [
    | none ↦
        (ok (record { level = env_level; format = env_format; utc = in_utc; sink = stderr }), d)
    | some conf_path ↦ loaded (E.read_to_string d conf_path) d
  ]
