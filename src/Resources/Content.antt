-- ===== src/Resources/Content.antt =====
-- src/resources.rs, update_file and minus_common: which file a key is kept in, and what the answer of
-- a removal says.
use k8s_sidecar_rs.Base.{
  Text, Bytes, Bool, true, false, Option, none, some, List, [], ◌∷◌, Result, ok, err, ◌≡◌, refl,
  ◌∙◌, ap, subst, arith, inl, inr, Bool-cases, map_err, nat_eq, list_eq, list_beq_iff,
  if◌then◌else◌,
}
use k8s_sidecar_rs.Base.Str.{strip_suffix}
use k8s_sidecar_rs.Base.Dict
use k8s_sidecar_rs.Base.Dict.{Dict}
use k8s_sidecar_rs.Kubeapi.Items.{Kind, Item}
use k8s_sidecar_rs.Host.World.{Host, World, IoError}
use k8s_sidecar_rs.Host.Io.{Act, continue}
use k8s_sidecar_rs.Host.Disk.{DiskLaws}
use k8s_sidecar_rs.Http.Auth.{HttpCfg}
use k8s_sidecar_rs.Http.Frame.{local-request}
use k8s_sidecar_rs.Files.{join, write_data_to_file}
use k8s_sidecar_rs.Files.Write.{write_data_to_file-true}
use k8s_sidecar_rs.Files.Remove.{remove_file-false}
use k8s_sidecar_rs.Resources.Cache.{url_suffix}
use k8s_sidecar_rs.Resources.Update.{
  Ctx, Content, raw_bytes, fetch, file_data, url_of, final_name, store, settle, update_file,
  iterate_from,
}
use k8s_sidecar_rs.Resources.Process.{minus_common, in_new}

-- `minus_common` keeps exactly the keys of the old map that the new one does not have, with their
-- old values.
pub minus_common-get :
    {V W : Type 0} (old : Dict Text V) (new : Option (Dict Text W)) (k : Text)
    → Dict.get (minus_common old new) k ≡ (if in_new new k then none else Dict.get old k)
unfolding minus_common Dict.get
minus_common-get [] new k = ground arith
minus_common-get ((j, v) ∷ old) new k = ground (arith, minus_common-get old new k, list_beq_iff j k)

module _ (H : Host) (cfg : HttpCfg H.F64) (L : DiskLaws H.files) where
  settle-true :
      (data_key dest_folder : Text) (r : Result Bool IoError) (w : World H)
      → (settle H cfg data_key dest_folder (map_err (λ (e : IoError). e.message) r) w).0 ≡ true
      → (r ≡ ok true)
        × ((settle H cfg data_key dest_folder (map_err (λ (e : IoError). e.message) r) w).1 ≡ w)
  settle-true data_key dest_folder (ok true) w h = (refl, refl)
  settle-true data_key dest_folder (ok false) w h = cc
  settle-true data_key dest_folder (err e) w h = cc

  -- On a disk that obeys `DiskLaws`: when a data key that does not end in `.url` is written, not
  -- removed, and `update_file` answers `true`, the file that the key is kept in, under its final
  -- name, holds the key's value.
  pub update_file-written :
      (data_key : Text) (content : Content) (dest_folder : Text) (item : Item) (kind : Kind)
      (ctx : Ctx H.Json) (content_type : Text) (w : World H)
      → strip_suffix data_key url_suffix ≡ none
      → (update_file H cfg data_key content dest_folder item kind ctx content_type false w).0 ≡ true
      → L.content
          (update_file H cfg data_key content dest_folder item kind ctx content_type false w).1.disk
          (join dest_folder (final_name H cfg ctx item kind data_key))
        ≡ some (raw_bytes content)
  unfolding update_file file_data store
  update_file-written data_key content dest_folder item kind ctx content_type w plain h =
      let name = final_name H cfg ctx item kind data_key in
      let done = write_data_to_file H dest_folder name (raw_bytes content) content_type w in
      let said = settle-true data_key dest_folder done.0 done.1 (rw plain at h) in
      rw plain (
        ap (λ (v : World H). L.content v.disk (join dest_folder name)) said.1
        ∙ write_data_to_file-true H L dest_folder name (raw_bytes content) content_type w said.0)

  disk-fetch :
      (ctx : Ctx H.Json) (filename : Text) (url : Result Text Text) (w : World H)
      → (fetch H cfg ctx filename url w).1.disk ≡ w.disk
  disk-fetch ctx filename (err e) w = refl
  disk-fetch ctx filename (ok url) w =
      ap (λ l. l.0) (local-request H cfg (some url) _ ctx.enable_5xx none w)

  disk-file_data :
      (ctx : Ctx H.Json) (data_key : Text) (content : Content) (stripped : Option Text)
      (w : World H)
      → (file_data H cfg ctx data_key content stripped w).1.disk ≡ w.disk
  unfolding file_data
  disk-file_data ctx data_key content none w = refl
  disk-file_data ctx data_key content (some stripped) w = disk-fetch ctx stripped (url_of content) w

  removal-quiet :
      (data_key dest_folder content_type : Text) (name : Text → Text)
      (found : Result (Text × Bytes) Text) (w : World H)
      → let go : Text × Bytes → Act H Text Bool =
          λ f. store H cfg dest_folder (name f.0) f.1 content_type true in
        let mid = continue found go w in
        (settle H cfg data_key dest_folder mid.0 mid.1).0 ≡ false
        → let go : Text × Bytes → Act H Text Bool =
            λ f. store H cfg dest_folder (name f.0) f.1 content_type true in
          let mid = continue found go w in
          (settle H cfg data_key dest_folder mid.0 mid.1).1.disk ≡ w.disk
  unfolding store
  removal-quiet data_key dest_folder content_type name (err e) w h = refl
  removal-quiet data_key dest_folder content_type name (ok f) w h =
      remove_file-false H L dest_folder (name f.0) w h

  update_file-removal_quiet :
      (data_key : Text) (content : Content) (dest_folder : Text) (item : Item) (kind : Kind)
      (ctx : Ctx H.Json) (content_type : Text) (w : World H)
      → (update_file H cfg data_key content dest_folder item kind ctx content_type true w).0 ≡ false
      → (update_file H cfg data_key content dest_folder item kind ctx content_type true w).1.disk
        ≡ w.disk
  unfolding update_file
  update_file-removal_quiet data_key content dest_folder item kind ctx content_type w h =
      let start = file_data H cfg ctx data_key content (strip_suffix data_key url_suffix) w in
      removal-quiet data_key dest_folder content_type (final_name H cfg ctx item kind) start.0
        start.1 h
      ∙ disk-file_data ctx data_key content (strip_suffix data_key url_suffix) w

  iterate_from-true :
      (entries : List (Text × Content)) (dest_folder : Text) (item : Item) (kind : Kind)
      (ctx : Ctx H.Json) (content_type : Text) (remove : Bool) (w : World H)
      → (iterate_from H cfg true entries dest_folder item kind ctx content_type remove w).0 ≡ true
  unfolding iterate_from
  iterate_from-true [] dest_folder item kind ctx content_type remove w = refl
  iterate_from-true ((k, c) ∷ entries) dest_folder item kind ctx content_type remove w =
      iterate_from-true entries dest_folder item kind ctx content_type remove _

  -- On a disk that obeys `DiskLaws`: when the removal of a list of data keys answers `false`, the
  -- disk is as it was.
  pub iterate_from-removal_quiet :
      (entries : List (Text × Content)) (dest_folder : Text) (item : Item) (kind : Kind)
      (ctx : Ctx H.Json) (content_type : Text) (w : World H)
      → (iterate_from H cfg false entries dest_folder item kind ctx content_type true w).0 ≡ false
      → (iterate_from H cfg false entries dest_folder item kind ctx content_type true w).1.disk
        ≡ w.disk
  unfolding iterate_from
  iterate_from-removal_quiet [] dest_folder item kind ctx content_type w h = refl
  iterate_from-removal_quiet ((k, c) ∷ entries) dest_folder item kind ctx content_type w h =
      let step = update_file H cfg k c dest_folder item kind ctx content_type true w in
      let from : Bool → Bool × World H =
        λ b. iterate_from H cfg b entries dest_folder item kind ctx content_type true step.1 in
      elim (Bool-cases step.0) [
        | inl changed ↦
            let said = subst (λ b. (from b).0 ≡ false) changed h in
            let always =
              iterate_from-true entries dest_folder item kind ctx content_type true step.1 in
            cc
        | inr same ↦
            ap (λ b. (from b).1.disk) same
            ∙ iterate_from-removal_quiet entries dest_folder item kind ctx content_type step.1
                (subst (λ b. (from b).0 ≡ false) same h)
            ∙ update_file-removal_quiet k c dest_folder item kind ctx content_type w same
      ]
