-- ===== src/Logger/Rollover.antt =====
-- src/logger.rs, emit: what a rollover does to the log file and its backups.
use k8s_sidecar_rs.Base.{
  Text, ℕ, ◌+◌, ◌-◌, ◌≤◌, ◌<◌, true, false, none, some, [], ◌≡◌, ◌≢◌, refl, ◌∙◌, sym, ap, arith,
  if◌then◌else◌, ◌==◌, nat_eq, list_eq, list_beq_iff,
}
use k8s_sidecar_rs.Base.Number.{u32_limit}
use k8s_sidecar_rs.Logger.Emit.{LogFiles, Rotating, bak, shift_backups, rotate, write_log, is_full}
use k8s_sidecar_rs.Logger.Backups.{
  LogLaws, content-move, bak-ne, bak-ne_path, Shifted, shift_backups-Shifted,
}

module _ (F : LogFiles) (L : LogLaws F) (path : Text) where
  module _ (m : ℕ) (d : F.Disk) (small : m + 1 < u32_limit) where
    abbrev oldest : Text
    oldest = bak path (m + 1)

    abbrev removed : F.Disk
    removed = F.remove_file d oldest

    abbrev shifted : F.Disk
    shifted = shift_backups F path m removed

    removed-gone : L.content removed oldest ≡ none
    removed-gone =
        L.content-remove_file d oldest oldest ∙ ground (arith, list_beq_iff oldest oldest)

    removed_ne : (x : Text) → x ≢ oldest → L.content removed x ≡ L.content d x
    removed_ne x ne = L.content-remove_file d oldest x ∙ ground (arith, list_beq_iff x oldest)

    moved_up : Shifted F L path removed m
    moved_up = shift_backups-Shifted F L path m removed small removed-gone

    path_ne : (k : ℕ) → path ≢ bak path k
    path_ne k e = bak-ne_path path k (sym e)

    shifted-path : L.content shifted path ≡ L.content d path
    shifted-path = moved_up.same path (λ k lo hi. path_ne k) ∙ removed_ne path (path_ne (m + 1))

    -- The disk after the rename of the log file.
    abbrev renamed : F.Disk
    renamed = F.rename shifted path (bak path 1)

    content-renamed :
        (x : Text)
        → L.content renamed x ≡ (
            if x == bak path 1
            then L.content d path
            else if x == path
            then none
            else L.content shifted x)
    content-renamed x =
        content-move F L shifted path (bak path 1) x (path_ne 1) moved_up.free
        ∙ rw shifted-path refl

    abbrev reopened : F.Disk
    reopened = (F.open_append renamed path).1

    content-reopened : L.content reopened path ≡ some []
    content-reopened =
        L.content-open_append renamed path path
        ∙ ground (
          arith,
          content-renamed path,
          list_beq_iff path path,
          list_beq_iff path (bak path 1),
          path_ne 1,
        )

    abbrev written : Text → F.Disk
    written text = F.append reopened path text

    content-written : (text : Text) → L.content (written text) path ≡ some text
    content-written text =
        L.content-append reopened path path text [] content-reopened
        ∙ ground (arith, list_beq_iff path path)

    content-written_ne :
        (text x : Text)
        → x ≢ path
        → L.content (written text) x
          ≡ (if x == bak path 1 then L.content d path else L.content shifted x)
    content-written_ne text x ne =
        let other : (x == path) ≡ false = ground (arith, list_beq_iff x path) in
        L.content-append reopened path x text [] content-reopened
        ∙ rw other
            (L.content-open_append renamed path x ∙ rw other (content-renamed x ∙ rw other refl))

  module _ (m : ℕ) (d : F.Disk) (small : m + 1 < u32_limit) where
    backup_1 : (text : Text) → L.content (written m d small text) (bak path 1) ≡ L.content d path
    backup_1 text =
        content-written_ne m d small text (bak path 1) (bak-ne_path path 1)
        ∙ ground (arith, list_beq_iff (bak path 1) (bak path 1))

    backup_later :
        (text : Text) (j : ℕ)
        → 1 ≤ j
        → j < m + 1
        → L.content (written m d small text) (bak path (j + 1)) ≡ L.content d (bak path j)
    backup_later text j lo hi =
        let later = bak-ne path (j + 1) 1 (omega arith) (omega arith) (omega arith) in
        let other : (bak path (j + 1) == bak path 1) ≡ false =
          ground (arith, list_beq_iff (bak path (j + 1)) (bak path 1)) in
        content-written_ne m d small text (bak path (j + 1)) (bak-ne_path path (j + 1))
        ∙ rw other (
            (moved_up m d small).older j lo (omega arith)
            ∙ removed_ne m d small (bak path j)
                (bak-ne path j (m + 1) (omega arith) (omega arith) (omega arith)))

    rotate-reopened : rotate F path (m + 1) d ≡ F.open_append (renamed m d small) path
    unfolding rotate
    rotate-reopened =
        let less : m + 1 - 1 ≡ m = omega arith in
        ap
          (λ k.
            F.open_append (F.rename (shift_backups F path k (removed m d small)) path (bak path 1))
              path)
          less

    others :
        (text x : Text)
        → x ≢ path
        → ((k : ℕ) → 1 ≤ k → k ≤ m + 1 → x ≢ bak path k)
        → L.content (written m d small text) x ≡ L.content d x
    others text x ne apart =
        let other : (x == bak path 1) ≡ false =
          ground (arith, list_beq_iff x (bak path 1), apart 1 (omega arith) (omega arith)) in
        content-written_ne m d small text x ne
        ∙ rw other (
            (moved_up m d small).same x apart
            ∙ removed_ne m d small x (apart (m + 1) (omega arith) (omega arith)))

  -- The sink while its file is open.
  abbrev pub opened_at : ℕ → ℕ → Rotating
  opened_at max_bytes n = record {
    path = path;
    max_bytes = max_bytes;
    backup_count = n;
    is_open = true;
  }

  -- When a line does not fit and there are backups to keep, on a disk where nothing fails: the log file
  -- holds just this line, the first backup is the file as it was, and each further backup is the one
  -- before it as it was. The oldest backup is lost, and no other file changes.
  pub write_log-rollover :
      (max_bytes m : ℕ) (text : Text) (d : F.Disk)
      → let r = opened_at max_bytes (m + 1) in
        let d' = (write_log F r text d).1 in
        m + 1 < u32_limit
        → is_full F r text d ≡ true
        → (L.content d' path ≡ some text)
          × (L.content d' (bak path 1) ≡ L.content d path)
          × ((j : ℕ)
              → 1 ≤ j
              → j < m + 1
              → L.content d' (bak path (j + 1)) ≡ L.content d (bak path j))
          × ((x : Text)
              → x ≢ path
              → ((k : ℕ) → 1 ≤ k → k ≤ m + 1 → x ≢ bak path k)
              → L.content d' x ≡ L.content d x)
  unfolding write_log
  write_log-rollover max_bytes m text d small full = rw full (
      rw (rotate-reopened m d small) (
        rw (L.open_ok (renamed m d small) path) (
          content-written m d small text,
          backup_1 m d small text,
          backup_later m d small text,
          others m d small text,
        )))
