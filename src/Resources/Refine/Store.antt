-- ===== src/Resources/Refine/Store.antt =====
-- src/files.rs against the abstract store: a write puts a digest, and a removal takes it out.
use mathlib.Core.Option
use k8s_sidecar_rs.Base.{
  Text, Bytes, true, false, Option, none, some, ok, ◌≡◌, refl, sym, ◌∙◌, ap, subst, arith, ◌==◌,
  nat_eq, list_eq, list_beq_iff, beq_refl, beq→eq, beq→ne, inl, inr, Bool-cases, if◌then◌else◌,
}
use k8s_sidecar_rs.Base.{◌⊎◌}
use k8s_sidecar_rs.Host.World.{Host, World}
use k8s_sidecar_rs.Host.Disk.{DiskLaws}
use k8s_sidecar_rs.Host.Smooth.{Smooth}
use k8s_sidecar_rs.Files.{
  join, ensure_folder, made, is_unchanged, same_digest, write_now, apply_mode, write_in_folder,
  write_data_to_file, remove_file,
}
use k8s_sidecar_rs.Files.Write.{
  content-ensure_folder, write_data_to_file-true, write_data_to_file-false, write_data_to_file_ne,
}
use k8s_sidecar_rs.Files.Remove.{
  remove_file-true, remove_file-false, remove_file-is_file, remove_file_ne,
}

abbrev pub Store : Type 0
Store = Text → Option Bytes

abbrev pub put : Text → Bytes → Store → Store
put f digest s g = if f == g then some digest else s g

abbrev pub take_out : Text → Store → Store
take_out f s g = if f == g then none else s g

module _ (H : Host) (L : DiskLaws H.files) (folder : Text) (Plain : Text → Type 0)
    (smooth : Smooth H L folder Plain) where
  -- What a world's folder holds.
  abbrev pub store : World H → Store
  store w f = Option.map H.sha256 (L.content w.disk (join folder f))

  -- The two stores agree on the plain names.
  abbrev pub Agree : Store → Store → Type 0
  Agree s t = (f : Text) → Plain f → s f ≡ t f

  ensure_folder-ok :
      (filename : Text) (w : World H) → (ensure_folder H folder filename w).0 ≡ ok true
  unfolding ensure_folder made
  ensure_folder-ok filename w = ground (arith, smooth.mkdir_ok w.disk)

  write_now-ok :
      (f : Text) (contents : Bytes) (data_type : Text) (w : World H)
      → Plain f
      → (write_now H (join folder f) contents data_type w).0 ≡ ok true
  unfolding write_now apply_mode
  write_now-ok f contents data_type w p =
      ground (arith, smooth.no_mode, smooth.write_ok w.disk f contents p)

  -- A write that is skipped finds the digest in place.
  write_in_folder-ok :
      (f : Text) (contents : Bytes) (data_type : Text) (w : World H)
      → Plain f
      → ((write_in_folder H folder f contents data_type w).0 ≡ ok true)
        ⊎ (((write_in_folder H folder f contents data_type w).0 ≡ ok false)
            × (store w f ≡ some (H.sha256 contents)))
  unfolding write_in_folder is_unchanged
  write_in_folder-ok f contents data_type w p =
      elim (Bool-cases (H.exists w.disk (join folder f))) [
        | inr new ↦ inl (rw new (write_now-ok f contents data_type w p))
        | inl old ↦
            let (b, read) = smooth.present w.disk f p old in
            elim (Bool-cases (same_digest H contents b)) [
              | inr differ ↦ inl (rw (old, read, differ) (write_now-ok f contents data_type w p))
              | inl same ↦ inr (
                rw (old, read, same) refl,
                ap (Option.map H.sha256) (L.content-read w.disk (join folder f) b read)
                    ∙ ap some (sym ((list_beq_iff (H.sha256 contents) (H.sha256 b)).0 same)),
              )
            ]
      ]

  write-outcome :
      (f : Text) (contents : Bytes) (data_type : Text) (w : World H)
      → Plain f
      → ((write_data_to_file H folder f contents data_type w).0 ≡ ok true)
        ⊎ (((write_data_to_file H folder f contents data_type w).0 ≡ ok false)
            × (store w f ≡ some (H.sha256 contents)))
  unfolding write_data_to_file
  write-outcome f contents data_type w p =
      let w₁ = (ensure_folder H folder f w).1 in
      rw (ensure_folder-ok f w) (
        subst
          (λ s.
            ((write_in_folder H folder f contents data_type w₁).0 ≡ ok true)
            ⊎ (((write_in_folder H folder f contents data_type w₁).0 ≡ ok false)
                × (s ≡ some (H.sha256 contents))))
          (ap (Option.map H.sha256) (content-ensure_folder H L folder f w (join folder f)))
          (write_in_folder-ok f contents data_type w₁ p))

  write-here :
      (f : Text) (contents : Bytes) (data_type : Text) (w : World H)
      → Plain f
      → store (write_data_to_file H folder f contents data_type w).1 f ≡ some (H.sha256 contents)
  write-here f contents data_type w p = elim (write-outcome f contents data_type w p) [
    | inl wrote ↦
        ap (Option.map H.sha256) (write_data_to_file-true H L folder f contents data_type w wrote)
    | inr (kept, there) ↦
        ap (Option.map H.sha256)
          (write_data_to_file-false H L folder f contents data_type w kept (join folder f))
        ∙ there
  ]

  -- In such a folder a write succeeds, and puts the digest of the contents.
  pub write-Agree :
      (f : Text) (contents : Bytes) (data_type : Text) (w : World H)
      → Plain f
      → Agree
          (store (write_data_to_file H folder f contents data_type w).1)
          (put f (H.sha256 contents) (store w))
  write-Agree f contents data_type w p g pg = elim (Bool-cases (f == g)) [
    | inr differ ↦ rw differ (
        ap (Option.map H.sha256) (
          write_data_to_file_ne H L folder f contents data_type w (join folder g)
            (smooth.apart f g p pg (beq→ne f g differ))))
    | inl same ↦
        subst
          (λ h.
            store (write_data_to_file H folder f contents data_type w).1 h
            ≡ put f (H.sha256 contents) (store w) h)
          (beq→eq f g same) (rw (beq_refl f) (write-here f contents data_type w p))
  ]

  remove_file-missing :
      (f : Text) (w : World H)
      → H.is_file w.disk (join folder f) ≡ false
      → (remove_file H folder f w).0 ≡ false
  unfolding remove_file
  remove_file-missing f w h = rw h refl

  remove-here : (f : Text) (w : World H) → Plain f → store (remove_file H folder f w).1 f ≡ none
  remove-here f w p = elim (Bool-cases (H.is_file w.disk (join folder f))) [
    | inl there ↦ ap (Option.map H.sha256) (
        remove_file-true H L folder f w
          (remove_file-is_file H L folder f w there (smooth.remove_ok w.disk f p there)))
    | inr missing ↦ ap (Option.map H.sha256) (
        ap (λ d. L.content d (join folder f))
          (remove_file-false H L folder f w (remove_file-missing f w missing))
        ∙ smooth.absent w.disk f p missing)
  ]

  -- A removal takes the file out of the store, if it is there.
  pub remove-Agree :
      (f : Text) (w : World H)
      → Plain f
      → Agree (store (remove_file H folder f w).1) (take_out f (store w))
  remove-Agree f w p g pg = elim (Bool-cases (f == g)) [
    | inr differ ↦ rw differ (
        ap (Option.map H.sha256) (
          remove_file_ne H L folder f w (join folder g)
            (smooth.apart f g p pg (beq→ne f g differ))))
    | inl same ↦
        subst (λ h. store (remove_file H folder f w).1 h ≡ take_out f (store w) h) (beq→eq f g same)
          (rw (beq_refl f) (remove-here f w p))
  ]
