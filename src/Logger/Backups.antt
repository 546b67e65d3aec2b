-- ===== src/Logger/Backups.antt =====
-- src/logger.rs, emit: how the backups move up.
use k8s_sidecar_rs.Base.{
  Text, Bytes, ℕ, zero, suc, ◌+◌, ◌≤◌, ◌<◌, true, Option, none, some, [], ◌∷◌, ◌++◌, ◌≡◌, ◌≢◌, refl,
  ◌∙◌, sym, ap, subst, arith, inl, inr, Bool-cases, if◌then◌else◌, ◌==◌, nat_eq, list_eq, unwrap_or,
  list_beq_iff, Option-cases, append-nil, leb, leb→le,
}
use k8s_sidecar_rs.Base.Number.{decimal, u32_limit}
use k8s_sidecar_rs.Base.Number.Laws.{decimal-injective}
use k8s_sidecar_rs.Files.Names.{append-cancel}
use k8s_sidecar_rs.Logger.Emit.{LogFiles, text_len, bak, shift_backups}

-- Documented behaviour of std::fs on a disk where nothing fails. A missing file can be neither removed
-- nor renamed, and a rename replaces the file at its target.
pub record LogLaws (F : LogFiles) : Type 1 where
  pub content : F.Disk → Text → Option Bytes
  pub content-remove_file :
      (d : F.Disk) (p q : Text)
      → content (F.remove_file d p) q ≡ (if q == p then none else content d q)
  pub content-rename :
      (d : F.Disk) (p q x : Text) (b : Bytes)
      → content d p ≡ some b
      → p ≢ q
      → content (F.rename d p q) x
        ≡ (if x == q then some b else if x == p then none else content d x)
  pub rename_missing :
      (d : F.Disk) (p q x : Text) → content d p ≡ none → content (F.rename d p q) x ≡ content d x
  pub metadata_len-content :
      (d : F.Disk) (p : Text) (b : Bytes)
      → content d p ≡ some b
      → F.metadata_len d p ≡ some (text_len b)
  pub open_ok : (d : F.Disk) (p : Text) → (F.open_append d p).0 ≡ true
  pub content-open_append :
      (d : F.Disk) (p x : Text)
      → content (F.open_append d p).1 x
        ≡ (if x == p then some (unwrap_or (content d p) []) else content d x)
  pub content-append :
      (d : F.Disk) (p x : Text) (b old : Bytes)
      → content d p ≡ some old
      → content (F.append d p b) x ≡ (if x == p then some (old ++ b) else content d x)

module _ (F : LogFiles) (L : LogLaws F) where
  -- A rename to a path where nothing is.
  pub content-move :
      (d : F.Disk) (p q x : Text)
      → p ≢ q
      → L.content d q ≡ none
      → L.content (F.rename d p q) x
        ≡ (if x == q then L.content d p else if x == p then none else L.content d x)
  content-move d p q x ne free = elim (Option-cases (L.content d p)) [
    | inl missing ↦
        L.rename_missing d p q x missing ∙ ground (arith, list_beq_iff x q, list_beq_iff x p)
    | inr (b, there) ↦ L.content-rename d p q x b there ne ∙ rw there refl
  ]

bak-injective :
    (path : Text) (i j : ℕ) → i < u32_limit → j < u32_limit → bak path i ≡ bak path j → i ≡ j
unfolding bak
bak-injective path i j hi hj e =
    let tails = append-cancel path (b'.' ∷ decimal i) (b'.' ∷ decimal j) e in
    decimal-injective u32_limit i j hi hj cc

pub bak-ne :
    (path : Text) (i j : ℕ) → i < u32_limit → j < u32_limit → i ≢ j → bak path i ≢ bak path j
bak-ne path i j hi hj ne e = ne (bak-injective path i j hi hj e)

pub bak-ne_path : (path : Text) (i : ℕ) → bak path i ≢ path
unfolding bak
bak-ne_path path i e =
    let tails = append-cancel path (b'.' ∷ decimal i) [] (e ∙ sym (append-nil path)) in cc

module _ (F : LogFiles) (L : LogLaws F) (path : Text) where
  -- The content of the backups after the shift of those up to the `i`-th, when the next place is free.
  pub record Shifted (d : F.Disk) (i : ℕ) : Type 0 where
    pub older :
        (j : ℕ)
        → 1 ≤ j
        → j ≤ i
        → L.content (shift_backups F path i d) (bak path (j + 1)) ≡ L.content d (bak path j)
    pub free : L.content (shift_backups F path i d) (bak path 1) ≡ none
    pub same :
        (x : Text)
        → ((k : ℕ) → 1 ≤ k → k ≤ i + 1 → x ≢ bak path k)
        → L.content (shift_backups F path i d) x ≡ L.content d x

  pub content-move_ne :
      (d : F.Disk) (p q x : Text)
      → p ≢ q
      → L.content d q ≡ none
      → x ≢ p
      → x ≢ q
      → L.content (F.rename d p q) x ≡ L.content d x
  content-move_ne d p q x ne free np nq =
      content-move F L d p q x ne free ∙ ground (arith, list_beq_iff x q, list_beq_iff x p)

  pub shift_backups-Shifted :
      (i : ℕ) (d : F.Disk) → i + 1 < u32_limit → L.content d (bak path (i + 1)) ≡ none → Shifted d i
  unfolding shift_backups
  shift_backups-Shifted zero d small free = record {
    older = λ j lo hi. absurd (omega arith);
    free = free;
    same = λ x h. refl;
  }
  shift_backups-Shifted (suc i) d small free =
      let p = bak path (i + 1) in
      let q = bak path (i + 2) in
      let d' = F.rename d p q in
      let top : suc i + 1 ≡ i + 2 = omega arith in
      let empty : L.content d q ≡ none = subst (λ n. L.content d (bak path n) ≡ none) top free in
      let differ = bak-ne path (i + 1) (i + 2) (omega arith) (omega arith) (omega arith) in
      let gone : L.content d' p ≡ none =
        content-move F L d p q p differ empty
        ∙ ground (arith, list_beq_iff p q, list_beq_iff p p) in
      let moved : L.content d' q ≡ L.content d p =
        content-move F L d p q q differ empty ∙ ground (arith, list_beq_iff q q) in
      let rest = shift_backups-Shifted i d' (omega arith) gone in
      record {
        older = λ j lo hi. elim (Bool-cases (leb j i)) [
          | inl le ↦
              let small' = leb→le j i le in
              rest.older j lo small'
              ∙ content-move_ne d p q (bak path j) differ empty
                  (bak-ne path j (i + 1) (omega arith) (omega arith) (omega arith))
                  (bak-ne path j (i + 2) (omega arith) (omega arith) (omega arith))
          | inr gt ↦
              let last : i + 1 ≡ j = ground arith in
              let next : i + 2 ≡ j + 1 = omega (arith, last) in
              subst
                (λ n. L.content (shift_backups F path i d') (bak path n) ≡ L.content d (bak path j))
                next
                (rest.same q
                    (λ k lo' hi'. bak-ne path (i + 2) k (omega arith) (omega arith) (omega arith))
                  ∙ moved
                  ∙ ap (λ n. L.content d (bak path n)) last)
        ];
        free = rest.free;
        same = λ x h.
            rest.same x (λ k lo hi. h k lo (omega arith))
            ∙ content-move_ne d p q x differ empty (h (i + 1) (omega arith) (omega arith))
                (h (i + 2) (omega arith) (omega arith));
      }
