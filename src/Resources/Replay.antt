-- ===== src/Resources/Replay.antt =====
-- src/resources.rs, watch_resource_iterator against an abstract replay: the two maps as functions, and
-- what a stream of events makes of them. Of the code it uses only the cached form of an
-- item, `from_item`.
use mathlib.Core.Path.{fun_ext}
use k8s_sidecar_rs.Base.{
  Text, ascii, Bool, true, false, ◌&&◌, Option, none, some, List, [], ◌∷◌, ◌++◌, ◌≡◌, ◌⊎◌, inl, inr,
  refl, ◌∙◌, ap, ◌==◌, nat_eq, list_eq, pair_eq, list_beq, beq→eq, Bool-cases, Option-cases,
  if◌then◌else◌,
}
use k8s_sidecar_rs.Base.Dict
use k8s_sidecar_rs.Base.Dict.{get-insert, get-remove}
use k8s_sidecar_rs.Kubeapi.Items
use k8s_sidecar_rs.Kubeapi.Items.{Kind, kind_eq, Item}
use k8s_sidecar_rs.Resources.Cache.{CachedItem, Maps, Key, from_item}
use k8s_sidecar_rs.Resources.Process.{remember, key_of}
use k8s_sidecar_rs.Resources.List.{is_processed, set_version}
use k8s_sidecar_rs.Resources.Watch.{is_deleted, is_upsert, forget_version, skip_event, note_event}

-- The object map and the version map.
abbrev pub View : Type 0
View = (Key → Option CachedItem) × (Key → Option Text)

abbrev pub view : Maps → View
view m = (λ k. Dict.get m.object k, λ k. Dict.get m.version k)

-- A function, changed at one key.
abbrev pub update : {A : Type 0} → (Key → Option A) → Key → Option A → Key → Option A
update f k a j = if k == j then a else f j

pub data Change : Type 0 where
  upserts deletes other_type : Change

unfoldable pub change_of : Text → Change
change_of event_type =
    if event_type == ascii "DELETED"
    then deletes
    else if event_type == ascii "ADDED"
    then upserts
    else if event_type == ascii "MODIFIED"
    then upserts
    else other_type

abbrev pub at_version : Option Text → Text → Bool
at_version none resource_version = false
at_version (some v) resource_version = v == resource_version

-- The effect of a change, by whether the item's version is the known one.
unfoldable pub change : Change → (ignore known : Bool) → Key → Item → View → View
change upserts ignore true k item v = v
change upserts ignore false k item v = (
  update v.0 k (some (from_item item)),
  if ignore then update v.1 k (some item.resource_version) else v.1,
)
change deletes ignore known k item v = (update v.0 k none, if known then update v.1 k none else v.1)
change other_type ignore known k item v = (update v.0 k (some (from_item item)), v.1)

-- One event: versions count only if those processed already are to be ignored.
abbrev pub replay_event : Bool → Kind → Text × Item → View → View
replay_event ignore kind (event_type, item) v =
    let k : Key = (kind, item.namespace ++ item.name) in
    change (change_of event_type) ignore (ignore && at_version (v.1 k) item.resource_version) k item
      v

unfoldable pub replay : Bool → Kind → List (Text × Item) → View → View
replay ignore kind [] v = v
replay ignore kind (event ∷ events) v = replay ignore kind events (replay_event ignore kind event v)

View-eq : {u v : View} → u.0 ≡ v.0 → u.1 ≡ v.1 → u ≡ v
View-eq p q = λ i. (p i, q i)

view-remember :
    (m : Maps) (kind : Kind) (item : Item) (dest : Option Text) (removed : Bool)
    → view (remember m kind item dest removed) ≡ (
      update (view m).0 (key_of kind item) (if removed then none else some (from_item item)),
      (view m).1,
    )
unfolding remember
view-remember m kind item dest true =
    View-eq (fun_ext λ k. get-remove m.object (key_of kind item) k) refl
view-remember m kind item dest false =
    View-eq (fun_ext λ k. get-insert m.object (key_of kind item) k (from_item item)) refl

view-set_version :
    (m : Maps) (kind : Kind) (item : Item)
    → view (set_version m kind item)
      ≡ ((view m).0, update (view m).1 (key_of kind item) (some item.resource_version))
unfolding set_version
view-set_version m kind item =
    View-eq refl (fun_ext λ k. get-insert m.version (key_of kind item) k item.resource_version)

view-forget_version :
    (m : Maps) (kind : Kind) (item : Item)
    → view (forget_version m kind item) ≡ ((view m).0, update (view m).1 (key_of kind item) none)
unfolding forget_version
view-forget_version m kind item =
    View-eq refl (fun_ext λ k. get-remove m.version (key_of kind item) k)

is_processed-at_version :
    (m : Maps) (kind : Kind) (item : Item)
    → is_processed m kind item
      ≡ at_version (Dict.get m.version (kind, item.namespace ++ item.name)) item.resource_version
unfolding is_processed Items.key
is_processed-at_version m kind item = elim (Option-cases (Dict.get m.version (key_of kind item))) [
  | inl missing ↦ rw missing refl
  | inr (v, there) ↦ rw there refl
]

-- The three kinds of event types, as the code tells them apart.
change_of-cases :
    (t : Text)
    → ((change_of t ≡ deletes) × (is_deleted t ≡ true) × (is_upsert t ≡ false))
      ⊎ ((change_of t ≡ upserts) × (is_deleted t ≡ false) × (is_upsert t ≡ true))
      ⊎ ((change_of t ≡ other_type) × (is_deleted t ≡ false) × (is_upsert t ≡ false))
unfolding change_of list_beq
change_of-cases t = elim (Bool-cases (t == ascii "DELETED")) [
  | inl gone ↦ inl (rw gone (refl, refl, rw (beq→eq t (ascii "DELETED") gone) refl))
  | inr stays ↦ elim (Bool-cases (t == ascii "ADDED")) [
    | inl added ↦ inr (inl (rw (stays, added) (refl, refl, refl)))
    | inr old ↦ elim (Bool-cases (t == ascii "MODIFIED")) [
      | inl modified ↦ inr (inl (rw (stays, old, modified) (refl, refl, refl)))
      | inr unknown ↦ inr (inr (rw (stays, old, unknown) (refl, refl, refl)))
    ]
  ]
]

-- The maps that a delivery leaves, `dest` being the folder of its item.
abbrev pub maps_after : Bool → Kind → Text → Item → Option Text → Maps → Maps
maps_after ignore kind event_type item dest m =
    if ignore
    then (if skip_event m kind event_type item
        then note_event m kind event_type item
        else remember (note_event m kind event_type item) kind item dest (is_deleted event_type))
    else remember m kind item dest (is_deleted event_type)

-- Under the events that are not deletions, the object map takes the item.
view-stores :
    (ignore : Bool) (kind : Kind) (event_type : Text) (item : Item) (dest : Option Text) (m : Maps)
    → is_upsert event_type ≡ true
    → is_deleted event_type ≡ false
    → view (maps_after ignore kind event_type item dest m)
      ≡ change upserts ignore (ignore && is_processed m kind item) (key_of kind item) item (view m)
unfolding change skip_event note_event
view-stores false kind event_type item dest m up stays =
    rw stays (view-remember m kind item dest false)
view-stores true kind event_type item dest m up stays =
    elim (Bool-cases (is_processed m kind item)) [
      | inl known ↦ rw (known, up) refl
      | inr new ↦
          rw (new, up, stays)
            (view-remember (set_version m kind item) kind item dest false
              ∙ ap (λ (v : View). (update v.0 (key_of kind item) (some (from_item item)), v.1))
                  (view-set_version m kind item))
    ]

view-deletes :
    (ignore : Bool) (kind : Kind) (event_type : Text) (item : Item) (dest : Option Text) (m : Maps)
    → is_upsert event_type ≡ false
    → is_deleted event_type ≡ true
    → view (maps_after ignore kind event_type item dest m)
      ≡ change deletes ignore (ignore && is_processed m kind item) (key_of kind item) item (view m)
unfolding change skip_event note_event
view-deletes false kind event_type item dest m up gone =
    rw gone (view-remember m kind item dest true)
view-deletes true kind event_type item dest m up gone =
    elim (Bool-cases (is_processed m kind item)) [
      | inl known ↦
          rw (known, up, gone)
            (view-remember (forget_version m kind item) kind item dest true
              ∙ ap (λ (v : View). (update v.0 (key_of kind item) none, v.1))
                  (view-forget_version m kind item))
      | inr new ↦ rw (new, up, gone) (view-remember m kind item dest true)
    ]

view-others :
    (ignore : Bool) (kind : Kind) (event_type : Text) (item : Item) (dest : Option Text) (m : Maps)
    → is_upsert event_type ≡ false
    → is_deleted event_type ≡ false
    → view (maps_after ignore kind event_type item dest m)
      ≡ change other_type ignore
          (ignore && is_processed m kind item)
          (key_of kind item)
          item
          (view m)
unfolding change skip_event note_event
view-others false kind event_type item dest m up stays =
    rw stays (view-remember m kind item dest false)
view-others true kind event_type item dest m up stays =
    elim (Bool-cases (is_processed m kind item)) [
      | inl known ↦ rw (known, up, stays) (view-remember m kind item dest false)
      | inr new ↦ rw (new, up, stays) (view-remember m kind item dest false)
    ]

pub view-maps_after :
    (ignore : Bool) (kind : Kind) (event_type : Text) (item : Item) (dest : Option Text) (m : Maps)
    → view (maps_after ignore kind event_type item dest m)
      ≡ replay_event ignore kind (event_type, item) (view m)
unfolding Items.key
view-maps_after ignore kind event_type item dest m =
    let known = is_processed-at_version m kind item in
    elim (change_of-cases event_type) [
      | inl (e, gone, up) ↦
          view-deletes ignore kind event_type item dest m up gone ∙ rw (e, known) refl
      | inr (inl (e, stays, up)) ↦
          view-stores ignore kind event_type item dest m up stays ∙ rw (e, known) refl
      | inr (inr (e, stays, up)) ↦
          view-others ignore kind event_type item dest m up stays ∙ rw (e, known) refl
    ]
