-- ===== src/Logger/Bounds.antt =====
-- src/logger.rs, emit: how long a log file with backups gets.
use k8s_sidecar_rs.Base.{
  Text, Bytes, ℕ, ◌+◌, ◌≤◌, ◌<◌, false, some, [], ◌∷◌, ◌++◌, ◌≡◌, ◌⊎◌, inl, inr, ◌∙◌, arith,
  Bool-cases, list_beq_iff, nat_eq, list_eq,
}
use k8s_sidecar_rs.Base.Number.{u32_limit}
use k8s_sidecar_rs.Logger.Emit.{LogFiles, write_log, is_full, text_len}
use k8s_sidecar_rs.Logger.Backups.{LogLaws}
use k8s_sidecar_rs.Logger.Rollover.{opened_at, write_log-rollover}

text_len-append : (s t : Text) → text_len (s ++ t) ≡ text_len s + text_len t
unfolding text_len
text_len-append [] t = omega arith
text_len-append (c ∷ s) t = omega (arith, text_len-append s t)

module _ (F : LogFiles) (L : LogLaws F) (path : Text) where
  appended :
      (max_bytes m : ℕ) (text : Text) (d : F.Disk) (old : Bytes)
      → let r = opened_at F L path max_bytes (m + 1) in
        L.content d path ≡ some old
        → is_full F r text d ≡ false
        → L.content (write_log F r text d).1 path ≡ some (old ++ text)
  unfolding write_log
  appended max_bytes m text d old there fits =
      rw fits (L.content-append d path path text old there ∙ ground (arith, list_beq_iff path path))

  fitting :
      (max_bytes m : ℕ) (text : Text) (d : F.Disk) (old : Bytes)
      → L.content d path ≡ some old
      → 0 < max_bytes
      → is_full F (opened_at F L path max_bytes (m + 1)) text d ≡ false
      → text_len (old ++ text) ≤ max_bytes
  unfolding is_full
  fitting max_bytes m text d old there limit fits =
      ground (arith, text_len-append old text, L.metadata_len-content d path old there)

  -- On a disk where nothing fails, with a limit and at least one backup: after a line is written the
  -- log file is the old one with the line at its end, and is not longer than the limit, or it is this
  -- line alone.
  pub write_log-bounded :
      (max_bytes m : ℕ) (text : Text) (d : F.Disk) (old : Bytes)
      → let r = opened_at F L path max_bytes (m + 1) in
        let d' = (write_log F r text d).1 in
        m + 1 < u32_limit
        → 0 < max_bytes
        → L.content d path ≡ some old
        → ((L.content d' path ≡ some (old ++ text)) × (text_len (old ++ text) ≤ max_bytes))
          ⊎ (L.content d' path ≡ some text)
  write_log-bounded max_bytes m text d old small limit there =
      let r = opened_at F L path max_bytes (m + 1) in
      elim (Bool-cases (is_full F r text d)) [
        | inl full ↦ inr (write_log-rollover F L path max_bytes m text d small full).0
        | inr fits ↦ inl (
          appended max_bytes m text d old there fits,
          fitting max_bytes m text d old there limit fits,
        )
      ]
