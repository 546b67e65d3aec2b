-- ===== src/Logger/Emit.antt =====
-- src/logger.rs: `emit` and `bak`. The files of the logger are a disk of their own, which no other
-- part of the program touches: a file opened for appending is the one at its path, or `/dev/null`.
use k8s_sidecar_rs.Base.{
  Text, Bytes, ascii, ℕ, zero, suc, ◌+◌, ◌-◌, Bool, ◌&&◌, Option, none, some, [], ◌∷◌, ◌++◌, ltb,
  unwrap_or, if◌then◌else◌,
}
use k8s_sidecar_rs.Base.Number.{decimal}
use k8s_sidecar_rs.Logger.Level.{Level, rank, name}
use k8s_sidecar_rs.Logger.Format.{Format, line}

-- std::fs, as far as the logger calls it. It drops the results of removals, renames and writes.
pub record LogFiles : Type 1 where
  pub Disk : Type 0
  pub remove_file : Disk → Text → Disk
  pub rename : Disk → Text → Text → Disk
  -- created if missing
  pub open_append : Disk → Text → Bool × Disk
  pub append : Disk → Text → Bytes → Disk
  pub metadata_len : Disk → Text → Option ℕ

-- `RotatingFile`: `is_open` tells the file at `path` from `/dev/null`.
pub record Rotating : Type 0 where
  pub path : Text
  pub max_bytes : ℕ
  pub backup_count : ℕ
  pub is_open : Bool

unfoldable pub bak : Text → ℕ → Text
bak path i = path ++ b'.' ∷ decimal i

unfoldable pub text_len : Text → ℕ
text_len [] = 0
text_len (c ∷ s) = 1 + text_len s

module _ (F : LogFiles) where
  -- `for i in (1..backup_count).rev()`, for the numbers up to the first argument.
  unfoldable pub shift_backups : Text → ℕ → F.Disk → F.Disk
  shift_backups path zero d = d
  shift_backups path (suc i) d =
      shift_backups path i (F.rename d (bak path (i + 1)) (bak path (i + 2)))

  -- The rollover, for at least one backup: the disk, and whether the file is open again.
  unfoldable pub rotate : Text → ℕ → F.Disk → Bool × F.Disk
  rotate path backup_count d =
      let d₁ = F.remove_file d (bak path backup_count) in
      let d₂ = shift_backups path (backup_count - 1) d₁ in
      F.open_append (F.rename d₂ path (bak path 1)) path

  abbrev pub file_len : Rotating → F.Disk → ℕ
  file_len r d = if r.is_open then unwrap_or (F.metadata_len d r.path) 0 else 0

  unfoldable pub is_full : Rotating → Text → F.Disk → Bool
  is_full r text d =
      ltb 0 r.max_bytes && ltb r.max_bytes (file_len r d + text_len text) && ltb 0 r.backup_count

  -- What is written to `/dev/null` is lost.
  unfoldable pub write_log : Rotating → Text → F.Disk → Rotating × F.Disk
  write_log r text d =
      let (opened, d₁) =
        if is_full r text d then rotate r.path r.backup_count d else (r.is_open, d) in
      (record r { is_open = opened }, if opened then F.append d₁ r.path text else d₁)

pub data Sink : Type 0 where
  stderr : Sink
  rotating_file : Rotating → Sink

pub record Logger : Type 0 where
  pub level : Level
  pub format : Format
  pub utc : Bool
  pub sink : Sink

-- Standard error as it stands, and the logger's disk.
pub record LogState (F : LogFiles) : Type 0 where
  pub logger : Option Logger
  pub stderr_text : Text
  pub disk : F.Disk

module _ (F : LogFiles) (to_json : Text → Text) where
  abbrev write_line : Logger → Sink → Text → LogState F → LogState F
  write_line l stderr text s = record s { stderr_text = s.stderr_text ++ text }
  write_line l (rotating_file r) text s =
      let (r', d) = write_log F r text s.disk in
      record s { logger = some (record l { sink = rotating_file r' }); disk = d }

  abbrev emit_with : Option Logger → (ts : Text) → Level → Text → LogState F → LogState F
  emit_with none ts level msg s = record s {
    stderr_text = s.stderr_text ++ name level ++ ascii " " ++ msg ++ 10 ∷ [];
  }
  emit_with (some l) ts level msg s =
      if ltb (rank level) (rank l.level)
      then s
      else write_line l l.sink (line to_json l.format ts level msg) s

  -- `ts` is the time of the call, in UTC or in the local zone as `utc` says. Before the logger is set up a plain line goes to standard error.
  unfoldable pub emit : (ts : Text) → Level → Text → LogState F → LogState F
  emit ts level msg s = emit_with s.logger ts level msg s
