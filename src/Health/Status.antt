-- ===== src/Health/Status.antt =====
-- src/health.rs: the health state and the body that the endpoint answers with.
use k8s_sidecar_rs.Base.{
  ℕ, ◌-◌, ◌*◌, ◌%◌, ◌^◌, Text, ascii, Bool, true, false, not, ◌||◌, List, [], ◌∷◌, if◌then◌else◌,
  ltb,
}

-- The watchers' `alive` flags are shared with the watcher tasks: the list holds their values.
pub record Health : Type 0 where
  pub ready : Bool
  pub last_contact_ms : ℕ
  pub watchers : List Bool

abbrev pub initial : Health
initial = record { ready = false; last_contact_ms = 0; watchers = [] }

abbrev pub contact_threshold_seconds : ℕ
contact_threshold_seconds = 60

abbrev pub mark_ready : Health → Health
mark_ready h = record h { ready = true }

-- `elapsed` is a `u128` in milliseconds, and is cut to a `u64`.
abbrev pub as_u64 : ℕ → ℕ
as_u64 n = n % 2 ^ 64

abbrev pub update_k8s_contact : ℕ → Health → Health
update_k8s_contact elapsed h = record h { last_contact_ms = as_u64 elapsed }

abbrev pub register_watchers : List Bool → Health → Health
register_watchers flags h = record h { watchers = flags }

-- Some flag is down. For an empty list this is false, as the code's emptiness test says too.
unfoldable pub any_dead : List Bool → Bool
any_dead [] = false
any_dead (alive ∷ flags) = not alive || any_dead flags

pub record Reply : Type 0 where
  pub code : ℕ
  pub reason : Text
  pub body : Text

unfoldable pub unavailable : Text → Reply
unavailable body = record { code = 503; reason = ascii "Service Unavailable"; body = body }

abbrev pub not_ready : Reply
not_ready = unavailable (ascii "NOT READY")

abbrev pub not_live_contact : Reply
not_live_contact = unavailable (ascii "NOT LIVE (K8s contact lost)")

abbrev pub not_live_watcher : Reply
not_live_watcher = unavailable (ascii "NOT LIVE (watcher thread died)")

abbrev pub all_ok : Reply
all_ok = record { code = 200; reason = ascii "OK"; body = ascii "OK" }

unfoldable pub status_body : ℕ → Health → Reply
status_body elapsed h =
    if not h.ready
    then not_ready
    else if ltb (contact_threshold_seconds * 1000) (as_u64 elapsed - h.last_contact_ms)
    then not_live_contact
    else if any_dead h.watchers
    then not_live_watcher
    else all_ok
