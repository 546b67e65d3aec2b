-- ===== src/Resources/Connection.antt =====
-- src/resources.rs, watch_resource_iterator: what a whole connection leaves in the maps and in the
-- health state, as a replay of the events it has handled.
use k8s_sidecar_rs.Base.{
  Text, Bool, true, Option, some, List, [], ◌∷◌, ◌++◌, map, Result, ok, err, nat_eq, list_eq, ◌≡◌,
  ◌⊎◌, ◌^◌, ◌%◌, if◌then◌else◌,
}
use k8s_sidecar_rs.Base.Dict
use k8s_sidecar_rs.Kubeapi.Items.{Kind, Item, KubeError}
use k8s_sidecar_rs.Kubeapi.Watch.{Delivery}
use k8s_sidecar_rs.Health.Status.{Health}
use k8s_sidecar_rs.Host.World.{Host, World}
use k8s_sidecar_rs.Http.Auth.{HttpCfg}
use k8s_sidecar_rs.Resources.Update.{Ctx}
use k8s_sidecar_rs.Resources.List.{WErr, kube, other}
use k8s_sidecar_rs.Resources.Replay.{view, replay}

-- What is left of the deliveries when a connection has ended so: none after a success, and after an
-- error the broken delivery first, unless the script has failed.
abbrev pub Leaves : Option Text → Result Unit WErr → List Delivery → Type 0
Leaves script (ok u) rest = rest ≡ []
Leaves script (err e) rest =
    ((k : KubeError) × (later : List Delivery) × (rest ≡ err k ∷ later) × (e ≡ kube k))
    ⊎ ((s : Text) × (message : Text) × (script ≡ some s) × (e ≡ other message))

-- The health state after these events: as it was if there are none. Else the last contact is of some
-- moment, the first delivery of the connection marks the sidecar ready, and nothing else has changed.
abbrev pub Heard : (H : Host) → Bool → List (Text × Item) → (h h' : Health) → Type 0
Heard H first [] h h' = h' ≡ h
Heard H first (event ∷ events) h h' =
    (n : H.Net) × (h' ≡ record h {
      ready = if first then true else h.ready;
      last_contact_ms = H.elapsed_ms n % 2 ^ 64;
    })

module _ (H : Host) (cfg : HttpCfg H.F64) (ctx : Ctx H.Json) (kind : Kind)
    (request_url : Option Text) where
  -- What a connection has done, when it has ended with this outcome.
  pub record Replayed (ignore first : Bool) (events : List Delivery) (r : Result Unit WErr)
      (w w' : World H) : Type 0 where
    pub handled : List (Text × Item)
    pub rest : List Delivery
    pub split : events ≡ map ok handled ++ rest
    pub left : Leaves ctx.script r rest
    pub maps : view w'.maps ≡ replay ignore kind handled (view w.maps)
    pub health : Heard H first handled w.health w'.health
