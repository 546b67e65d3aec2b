-- ===== src/Resources/Events.antt =====
-- src/resources.rs, watch_resource_iterator and watch_task: what a delivery does to the maps and to
-- the health state, and what ends a watcher.
use k8s_sidecar_rs.Base.{
  Text, Bool, true, false, not, ◌&&◌, Option, none, some, ◌≡◌, refl, ◌∙◌, ap, arith, ◌==◌, nat_eq,
  list_eq, pair_eq, inl, inr, Bool-cases, if◌then◌else◌,
}
use k8s_sidecar_rs.Base.Dict
use k8s_sidecar_rs.Base.Dict.{get-insert, get-remove}
use k8s_sidecar_rs.Kubeapi.Items.{Kind, kind_eq, Item}
use k8s_sidecar_rs.Health.Status.{Health}
use k8s_sidecar_rs.Host.World.{Host, World}
use k8s_sidecar_rs.Host.Io.{continue-keeps}
use k8s_sidecar_rs.Http.Auth.{HttpCfg}
use k8s_sidecar_rs.Http.Frame.{local-request}
use k8s_sidecar_rs.Script.{execute, report}
use k8s_sidecar_rs.Resources.Cache.{Maps, Key, from_item}
use k8s_sidecar_rs.Resources.Update.{Ctx, folder_for, get_destination_folder}
use k8s_sidecar_rs.Resources.Process.{remember, key_of}
use k8s_sidecar_rs.Resources.Frame.{kept, kept-process_resource}
use k8s_sidecar_rs.Resources.List.{set_version, run_script, call_url, notify}
use k8s_sidecar_rs.Resources.Watch.{
  is_deleted, forget_version, skip_event, note_event, work_event, on_event,
}

module _ (H : Host) (cfg : HttpCfg H.F64) (ctx : Ctx H.Json) (request_url : Option Text) where
  kept-execute : (s : Text) (w : World H) → kept H cfg (execute H s w).1 ≡ kept H cfg w
  unfolding execute report
  kept-execute s w = ground arith

  kept-run_script :
      (s : Option Text) (w : World H) → kept H cfg (run_script H cfg ctx s w).1 ≡ kept H cfg w
  kept-run_script none w = refl
  kept-run_script (some s) w = kept-execute s w

  kept-call_url :
      (url : Option Text) (w : World H) → kept H cfg (call_url H cfg ctx url w).1 ≡ kept H cfg w
  kept-call_url none w = refl
  kept-call_url (some url) w =
      ap (λ l. (l.1, l.2))
        (local-request H cfg (some url) ctx.req_method ctx.enable_5xx ctx.req_payload w)

  pub kept-notify :
      (changed : Bool) (w : World H)
      → kept H cfg (notify H cfg ctx changed request_url w).1 ≡ kept H cfg w
  unfolding notify
  kept-notify false w = refl
  kept-notify true w =
      let ran = run_script H cfg ctx ctx.script w in
      continue-keeps (λ v. kept H cfg v ≡ kept H cfg w) ran.0 _ ran.1 (kept-run_script ctx.script w)
        (λ u. kept-call_url request_url ran.1 ∙ kept-run_script ctx.script w)

-- Both kinds of step, as `remember` makes them in the object map.
remember-get :
    (m : Maps) (kind : Kind) (item : Item) (dest : Option Text) (removed : Bool) (k : Key)
    → Dict.get (remember m kind item dest removed).object k ≡ (
        if key_of kind item == k
        then (if removed then none else some (from_item item))
        else Dict.get m.object k)
unfolding remember
remember-get m kind item dest true k = get-remove m.object (key_of kind item) k
remember-get m kind item dest false k = get-insert m.object (key_of kind item) k (from_item item)

pub note_event-object :
    (m : Maps) (kind : Kind) (event_type : Text) (item : Item)
    → (note_event m kind event_type item).object ≡ m.object
unfolding note_event set_version forget_version
note_event-object m kind event_type item = ground arith

module _ (H : Host) (cfg : HttpCfg H.F64) (ctx : Ctx H.Json) (kind : Kind)
    (request_url : Option Text) where
  pub kept-folder :
      (item : Item) (w : World H)
      → kept H cfg (get_destination_folder H item ctx w).1 ≡ kept H cfg w
  unfolding get_destination_folder
  kept-folder item w = ground arith

  pub kept-work_event :
      (event_type : Text) (item : Item) (w : World H)
      → let dest = folder_for ctx.target_folder (Dict.get item.annotations ctx.folder_annotation) in
        kept H cfg (work_event H cfg ctx kind request_url event_type item w).1
        ≡ (remember w.maps kind item (some dest) (is_deleted event_type), w.health)
  unfolding work_event get_destination_folder
  kept-work_event event_type item w =
      kept-notify H cfg ctx request_url _ _
      ∙ kept-process_resource H cfg ctx kind item _ (is_deleted event_type) _
      ∙ ap
          (λ (p : Maps × Health). (
            remember p.0 kind item
                (some
                  (folder_for ctx.target_folder (Dict.get item.annotations ctx.folder_annotation)))
                (is_deleted event_type),
            p.1,
          ))
          (kept-folder item _)

  object-work_event :
      (event_type : Text) (item : Item) (w : World H) (k : Key)
      → Dict.get (work_event H cfg ctx kind request_url event_type item w).1.maps.object k ≡ (
          if key_of kind item == k
          then (if is_deleted event_type then none else some (from_item item))
          else Dict.get w.maps.object k)
  object-work_event event_type item w k =
      ap (λ (p : Maps × Health). Dict.get p.0.object k) (kept-work_event event_type item w)
      ∙ remember-get w.maps kind item _ (is_deleted event_type) k

  -- Whether the event is left aside.
  abbrev pub is_skipped : Bool → Maps → Text → Item → Bool
  is_skipped ignore m event_type item = ignore && skip_event m kind event_type item

  -- What a delivery does to the object map, on every path and whether or not the script fails: a
  -- skipped one changes no entry. Any other changes the entry of the item's own key only, which
  -- DELETED takes out and every other event type sets to the item's cached form.
  pub on_event-object :
      (ignore : Bool) (event_type : Text) (item : Item) (w : World H) (k : Key)
      → Dict.get (on_event H cfg ctx kind request_url ignore event_type item w).1.maps.object k ≡ (
          if not (is_skipped ignore w.maps event_type item) && key_of kind item == k
          then (if is_deleted event_type then none else some (from_item item))
          else Dict.get w.maps.object k)
  unfolding on_event
  on_event-object ignore event_type item w k =
      let noted = note_event-object w.maps kind event_type item in
      let w' = record w { maps = note_event w.maps kind event_type item } in
      elim (Bool-cases ignore) [
        | inr off ↦ rw off (object-work_event event_type item w k)
        | inl on ↦ elim (Bool-cases (skip_event w.maps kind event_type item)) [
          | inl skip ↦ rw (on, skip) (ap (λ m. Dict.get m k) noted)
          | inr work ↦
              rw (on, work)
                (object-work_event event_type item w' k
                  ∙ ap
                      (λ m.
                        if key_of kind item == k
                        then (if is_deleted event_type then none else some (from_item item))
                        else Dict.get m k)
                      noted)
        ]
      ]
