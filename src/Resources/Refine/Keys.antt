-- ===== src/Resources/Refine/Keys.antt =====
-- src/resources.rs, update_file and iterate_data against the abstract store: the keys of an item are
-- put or taken out one after another.
use mathlib.Core.Option
use k8s_sidecar_rs.Base.{
  Text, Bytes, Bool, true, false, none, some, Result, ok, err, ◌≡◌, refl, ◌∙◌, ap, ◌==◌, nat_eq,
  list_eq, List, [], ◌∷◌, if◌then◌else◌,
}
use k8s_sidecar_rs.Base.Str.{strip_suffix}
use k8s_sidecar_rs.Kubeapi.Items.{Kind, Item}
use k8s_sidecar_rs.Host.World.{Host, World}
use k8s_sidecar_rs.Host.Disk.{DiskLaws}
use k8s_sidecar_rs.Host.Smooth.{Smooth}
use k8s_sidecar_rs.Files.{join}
use k8s_sidecar_rs.Http.Auth.{HttpCfg}
use k8s_sidecar_rs.Resources.Cache.{url_suffix}
use k8s_sidecar_rs.Resources.Update.{
  Ctx, Content, raw_bytes, file_data, final_name, store, settle, update_file, iterate_from,
}
use k8s_sidecar_rs.Resources.Refine.Store
use k8s_sidecar_rs.Resources.Refine.Store.{Store, put, take_out, Agree, write-Agree, remove-Agree}

-- What the keys are to do to the store, by the file name and the digest of each.
unfoldable pub put_all : (Text → Text) → (Bytes → Bytes) → List (Text × Content) → Store → Store
put_all name digest [] s = s
put_all name digest ((k, c) ∷ entries) s =
    put_all name digest entries (put (name k) (digest (raw_bytes c)) s)

unfoldable pub take_out_all : (Text → Text) → List (Text × Content) → Store → Store
take_out_all name [] s = s
take_out_all name ((k, c) ∷ entries) s = take_out_all name entries (take_out (name k) s)

module _ (H : Host) (L : DiskLaws H.files) (folder : Text) (Plain : Text → Type 0)
    (smooth : Smooth H L folder Plain) where
  abbrev pub Same : Store → Store → Type 0
  Same = Agree H L folder Plain smooth

  pub put_all-Agree :
      (name : Text → Text) (digest : Bytes → Bytes) (entries : List (Text × Content)) (s t : Store)
      → Same s t
      → Same (put_all name digest entries s) (put_all name digest entries t)
  unfolding put_all
  put_all-Agree name digest [] s t h = h
  put_all-Agree name digest ((k, c) ∷ entries) s t h =
      put_all-Agree name digest entries _ _
        (λ f p. ap (λ v. if name k == f then some (digest (raw_bytes c)) else v) (h f p))

  pub take_out_all-Agree :
      (name : Text → Text) (entries : List (Text × Content)) (s t : Store)
      → Same s t
      → Same (take_out_all name entries s) (take_out_all name entries t)
  unfolding take_out_all
  take_out_all-Agree name [] s t h = h
  take_out_all-Agree name ((k, c) ∷ entries) s t h =
      take_out_all-Agree name entries _ _ (λ f p. ap (λ v. if name k == f then none else v) (h f p))

  module _ (cfg : HttpCfg H.F64) (ctx : Ctx H.Json) (kind : Kind) (item : Item) where
    -- The file name of a key.
    abbrev pub name_of : Text → Text
    name_of = final_name H cfg ctx item kind

    -- Every key is kept under a plain name, and none is a `.url` key.
    abbrev pub Ordinary : List (Text × Content) → Type 0
    Ordinary [] = Unit
    Ordinary ((k, c) ∷ entries) =
        (strip_suffix k url_suffix ≡ none) × Plain (name_of k) × Ordinary entries

    disk-settle :
        (data_key : Text) (r : Result Bool Text) (w : World H)
        → (settle H cfg data_key folder r w).1.disk ≡ w.disk
    disk-settle data_key (ok changed) w = refl
    disk-settle data_key (err e) w = refl

    update_file-put :
        (k : Text) (c : Content) (content_type : Text) (w : World H)
        → strip_suffix k url_suffix ≡ none
        → Plain (name_of k)
        → Same
            (Store.store H L folder Plain smooth
              (update_file H cfg k c folder item kind ctx content_type false w).1)
            (put (name_of k) (H.sha256 (raw_bytes c)) (Store.store H L folder Plain smooth w))
    unfolding update_file file_data store
    update_file-put k c content_type w plain p f pf = rw plain (
        ap (λ d. Option.map H.sha256 (L.content d (join folder f))) (disk-settle k _ _)
        ∙ write-Agree H L folder Plain smooth (name_of k) (raw_bytes c) content_type w p f pf)

    update_file-take_out :
        (k : Text) (c : Content) (content_type : Text) (w : World H)
        → strip_suffix k url_suffix ≡ none
        → Plain (name_of k)
        → Same
            (Store.store H L folder Plain smooth
              (update_file H cfg k c folder item kind ctx content_type true w).1)
            (take_out (name_of k) (Store.store H L folder Plain smooth w))
    unfolding update_file file_data store
    update_file-take_out k c content_type w plain p f pf =
        rw plain (remove-Agree H L folder Plain smooth (name_of k) w p f pf)

    -- Writing the keys of an item puts them all.
    pub iterate_from-put_all :
        (entries : List (Text × Content)) (changed : Bool) (content_type : Text) (w : World H)
        → Ordinary entries
        → Same
            (Store.store H L folder Plain smooth
              (iterate_from H cfg changed entries folder item kind ctx content_type false w).1)
            (put_all name_of H.sha256 entries (Store.store H L folder Plain smooth w))
    unfolding iterate_from put_all
    iterate_from-put_all [] changed content_type w o f p = refl
    iterate_from-put_all ((k, c) ∷ entries) changed content_type w o f p =
        iterate_from-put_all entries _ content_type _ o.2 f p
        ∙ put_all-Agree name_of H.sha256 entries _ _ (update_file-put k c content_type w o.0 o.1) f
            p

    -- Removing the keys of an item takes them all out.
    pub iterate_from-take_out_all :
        (entries : List (Text × Content)) (changed : Bool) (content_type : Text) (w : World H)
        → Ordinary entries
        → Same
            (Store.store H L folder Plain smooth
              (iterate_from H cfg changed entries folder item kind ctx content_type true w).1)
            (take_out_all name_of entries (Store.store H L folder Plain smooth w))
    unfolding iterate_from take_out_all
    iterate_from-take_out_all [] changed content_type w o f p = refl
    iterate_from-take_out_all ((k, c) ∷ entries) changed content_type w o f p =
        iterate_from-take_out_all entries _ content_type _ o.2 f p
        ∙ take_out_all-Agree name_of entries _ _ (update_file-take_out k c content_type w o.0 o.1) f
            p
