-- ===== src/Resources/Stale.antt =====
-- src/resources.rs: the cleanup at the end of a sync pass removes the stale entries of the object
-- map and no others.
use k8s_sidecar_rs.Base.{
  Text, ascii, ◌⊎◌, beq→eq, beq_refl, Bool, true, false, ◌&&◌, Option, none, some, List, [], ◌∷◌,
  ◌++◌, map, contains, ◌≡◌, ◌↔◌, refl, ◌∙◌, ap, subst, arith, ◌==◌, nat_eq, list_eq, pair_eq,
  list_beq_iff, inl, inr, Bool-cases, Option-cases, if◌then◌else◌,
}
use k8s_sidecar_rs.Base.Dict
use k8s_sidecar_rs.Base.Dict.{Dict, get-insert, get-remove, In, In-get}
use k8s_sidecar_rs.Kubeapi.Items
use k8s_sidecar_rs.Kubeapi.Items.{Kind, kind_eq, kind_beq_iff, Item}
use k8s_sidecar_rs.Host.World.{Host, World}
use k8s_sidecar_rs.Http.Auth.{HttpCfg}
use k8s_sidecar_rs.Resources.Cache.{CachedItem, Key, to_removal_item}
use k8s_sidecar_rs.Resources.Update.{Ctx}
use k8s_sidecar_rs.Resources.Process.{process_resource, remember, key_of}
use k8s_sidecar_rs.Resources.Frame.{kept-process_resource}
use k8s_sidecar_rs.Resources.Maps.{IsWellFormed}
use k8s_sidecar_rs.Resources.List.{is_stale, is_all, stale_items, remove_items}

contains-In : (keys : List Text) (key : Text) → (contains keys key ≡ true) ↔ In key keys
unfolding contains
contains-In [] key = (λ h. cc, λ i. absurd i)
contains-In (x ∷ keys) key = (
  λ h. elim (Bool-cases (key == x)) [
    | inl same ↦ inl (beq→eq key x same)
    | inr differ ↦ inr ((contains-In keys key).0 (rw differ at h))
  ],
  λ i. elim i [
    | inl e ↦ rw e (rw (beq_refl x) refl)
    | inr later ↦ rw ((contains-In keys key).1 later) (ground arith)
  ],
)

module _ (H : Host) (cfg : HttpCfg H.F64) (ctx : Ctx H.Json) (kind : Kind) (namespace : Text) where
  abbrev pub found : World H → Key → Option CachedItem
  found w k = Dict.get w.maps.object k

  -- Some item of the list has this key.
  abbrev pub names : List Item → Key → Bool
  names items (k, key) = kind == k && contains (map Items.key items) key

  found-process_resource :
      (item : Item) (w : World H) (k : Key)
      → found (process_resource H cfg ctx kind item none true w).1 k
        ≡ (if key_of kind item == k then none else found w k)
  unfolding remember
  found-process_resource item w k =
      ap (λ m. Dict.get m.0.object k) (kept-process_resource H cfg ctx kind item none true w)
      ∙ get-remove w.maps.object (key_of kind item) k

  names-cons :
      (item : Item) (items : List Item) (k : Key) (o : Option CachedItem)
      → (if names items k then none else (if key_of kind item == k then none else o))
        ≡ (if names (item ∷ items) k then none else o)
  unfolding contains
  names-cons item items (j, key) o =
      ground (arith, list_beq_iff (Items.key item) key, list_beq_iff key (Items.key item))

  found-remove_items :
      (items : List Item) (changed : Bool) (w : World H) (k : Key)
      → found (remove_items H cfg ctx kind namespace changed items w).1 k
        ≡ (if names items k then none else found w k)
  unfolding remove_items contains
  found-remove_items [] changed w k = ground arith
  found-remove_items (item ∷ items) changed w k =
      found-remove_items items _ _ k
      ∙ ap (λ o. if names items k then none else o) (found-process_resource item _ k)
      ∙ names-cons item items k (found w k)

  -- A key is named by the stale list exactly if a stale entry has it.
  module _ (exist_keys : List Text) where
    abbrev pub stale_value : Key → Option CachedItem → Bool
    stale_value k none = false
    stale_value k (some cached) = is_stale kind namespace exist_keys (k, cached)

    stale_kind : (x : Key × CachedItem) → is_stale kind namespace exist_keys x ≡ true → x.0.0 ≡ kind
    unfolding is_stale
    stale_kind ((j, key), cached) h = ground (arith, kind_beq_iff j kind)

    stale_value_unique :
        (m : Dict Key CachedItem) (x : Key × CachedItem) (k : Key)
        → IsWellFormed m
        → In x m
        → x.0 ≡ k
        → is_stale kind namespace exist_keys x ≡ true
        → stale_value k (Dict.get m k) ≡ true
    stale_value_unique m x k wf i e h =
        subst (λ k'. stale_value k' (Dict.get m k') ≡ true) e (rw (wf.unique x i) h)

    names-stale_items :
        (m l : Dict Key CachedItem)
        → IsWellFormed m
        → ((x : Key × CachedItem) → In x l → In x m)
        → (k : Key) → names (stale_items kind namespace exist_keys l) k ≡ true
        → stale_value k (Dict.get m k) ≡ true
    unfolding stale_items contains Items.key to_removal_item
    names-stale_items m [] wf sub k h = ground arith
    names-stale_items m (x ∷ l) wf sub (j, key) h =
        let rest = names-stale_items m l wf (λ y i. sub y (inr i)) (j, key) in
        elim (Bool-cases (is_stale kind namespace exist_keys x)) [
          | inr kept ↦ rest (rw kept at h)
          | inl gone ↦ elim (Bool-cases (key == x.1.namespace ++ x.1.name)) [
            | inr differ ↦ rest (ground arith)
            | inl same ↦
                stale_value_unique m x (j, key) wf (sub x (inl refl))
                  (ground (
                    arith,
                    stale_kind x gone,
                    kind_beq_iff kind j,
                    wf.keyed x (sub x (inl refl)),
                    list_beq_iff key (x.1.namespace ++ x.1.name),
                  ))
                  gone
          ]
        ]

    names-stale_head :
        (l : Dict Key CachedItem) (k : Key) (cached : CachedItem)
        → k.1 ≡ cached.namespace ++ cached.name
        → is_stale kind namespace exist_keys (k, cached) ≡ true
        → names (stale_items kind namespace exist_keys ((k, cached) ∷ l)) k ≡ true
    unfolding stale_items contains Items.key to_removal_item
    names-stale_head l (j, key) cached e h = ground (
      arith,
      stale_kind ((j, key), cached) h,
      kind_beq_iff kind j,
      list_beq_iff key (cached.namespace ++ cached.name),
    )

    stale-names :
        (l : Dict Key CachedItem) (k : Key) (cached : CachedItem)
        → In (k, cached) l
        → k.1 ≡ cached.namespace ++ cached.name
        → is_stale kind namespace exist_keys (k, cached) ≡ true
        → names (stale_items kind namespace exist_keys l) k ≡ true
    unfolding stale_items contains
    stale-names [] k cached i e h = absurd i
    stale-names (x ∷ l) k cached (inl same) e h =
        subst (λ y. names (stale_items kind namespace exist_keys (y ∷ l)) k ≡ true) same
          (names-stale_head l k cached e h)
    stale-names (x ∷ l) k cached (inr later) e h = ground (arith, stale-names l k cached later e h)

    pub found-remove_stale :
        (order : List (Key × CachedItem) → List (Key × CachedItem))
        → ((m : Dict Key CachedItem) (x : Key × CachedItem) → In x (order m) ↔ In x m)
        → (changed : Bool) (w : World H) (k : Key) → IsWellFormed w.maps.object
        → found
            (remove_items H cfg ctx kind namespace changed
              (stale_items kind namespace exist_keys (order w.maps.object))
              w).1
            k
          ≡ (if stale_value k (found w k) then none else found w k)
    found-remove_stale order walk changed w k wf =
        let m = w.maps.object in
        let items = stale_items kind namespace exist_keys (order m) in
        let named = names-stale_items m (order m) wf (λ x. (walk m x).0) k in
        elim (Option-cases (found w k)) [
          | inl absent ↦ found-remove_items items changed w k ∙ rw absent (ground arith)
          | inr (cached, there) ↦
              let i = In-get m k there in
              let listed =
                stale-names (order m) k cached ((walk m (k, cached)).1 i)
                  (wf.keyed (k, cached) i) in
              let named' = subst (λ o. names items k ≡ true → stale_value k o ≡ true) there named in
              found-remove_items items changed w k ∙ rw there (ground (arith, listed, named'))
        ]

    -- Of the pass's kind and namespace, and none of the items that the pass has found.
    pub record IsGone (k : Key) (cached : CachedItem) : Type 0 where
      pub same_kind : k.0 ≡ kind
      pub same_namespace : (namespace ≡ ascii "ALL") ⊎ (cached.namespace ≡ namespace)
      pub not_found : In k.1 exist_keys → ⊥

    IsGone-stale :
        (k : Key) (cached : CachedItem)
        → IsGone k cached
        → is_stale kind namespace exist_keys (k, cached) ≡ true
    unfolding is_stale is_all
    IsGone-stale (j, key) cached gone =
        let missing : contains exist_keys key ≡ false =
          elim (Bool-cases (contains exist_keys key)) [
            | inl found ↦ absurd (gone.not_found ((contains-In exist_keys key).0 found))
            | inr new ↦ new
          ] in
        elim gone.same_namespace [
          | inl all ↦
              ground
                (arith, gone.same_kind, kind_beq_iff j kind, list_beq_iff namespace (ascii "ALL"))
          | inr same ↦
              ground (
                arith,
                gone.same_kind,
                kind_beq_iff j kind,
                list_beq_iff cached.namespace namespace,
              )
        ]

    stale-IsGone :
        (k : Key) (cached : CachedItem)
        → is_stale kind namespace exist_keys (k, cached) ≡ true
        → IsGone k cached
    unfolding is_stale is_all
    stale-IsGone (j, key) cached h = record {
      same_kind = ground (arith, kind_beq_iff j kind);
      same_namespace = elim (Bool-cases (namespace == ascii "ALL")) [
        | inl all ↦ inl (beq→eq namespace (ascii "ALL") all)
        | inr one ↦ inr (ground (arith, list_beq_iff cached.namespace namespace))
      ];
      not_found = λ i. ground (arith, (contains-In exist_keys key).1 i);
    }

    not_gone :
        {k : Key} {cached : CachedItem} (c : CachedItem)
        → some c ≡ some cached
        → is_stale kind namespace exist_keys (k, c) ≡ false
        → IsGone k cached
        → ⊥
    not_gone {k} {cached} c e kept gone = let stale = IsGone-stale k cached gone in cc

    -- For an object map with unique, well-keyed entries, and a walk that passes over exactly the map's
    -- entries: an entry is in the map after the cleanup exactly if it was there before and is not gone.
    -- It is gone if it is of the pass's kind, its namespace is the pass's or the pass is over ALL, and
    -- its key is not in the list of those that the pass has found.
    pub remove_items-stale :
        (order : List (Key × CachedItem) → List (Key × CachedItem))
        → ((m : Dict Key CachedItem) (x : Key × CachedItem) → In x (order m) ↔ In x m)
        → (changed : Bool) (w : World H) (k : Key) (cached : CachedItem)
        → IsWellFormed w.maps.object
        → (found
              (remove_items H cfg ctx kind namespace changed
                (stale_items kind namespace exist_keys (order w.maps.object))
                w).1
              k
            ≡ some cached)
          ↔ ((found w k ≡ some cached) × (IsGone k cached → ⊥))
    remove_items-stale order walk changed w k cached wf =
        let m = w.maps.object in
        let after = found-remove_stale order walk changed w k wf in
        elim (Option-cases (found w k)) [
          | inl absent ↦ rw (after, absent) (λ h. cc, λ h. cc)
          | inr (c, there) ↦ elim (Bool-cases (is_stale kind namespace exist_keys (k, c))) [
            | inl stale ↦
                rw (after, there, stale)
                  (λ h. cc, λ h. absurd (h.1 (subst (IsGone k) (cc) (stale-IsGone k c stale))))
            | inr kept ↦
                rw (after, there, kept) (λ h. (h, λ gone. not_gone c h kept gone), λ h. h.0)
          ]
        ]
