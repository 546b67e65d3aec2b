-- ===== src/Health/Live.antt =====
-- src/health.rs, status_body: when the endpoint answers 200.
use k8s_sidecar_rs.Base.{
  ℕ, ◌+◌, ◌-◌, ◌*◌, ◌≤◌, ◌^◌, Bool, true, false, List, [], ◌∷◌, ◌≡◌, ◌↔◌, refl, arith,
}
use k8s_sidecar_rs.Health.Status.{
  Health, any_dead, unavailable, status_body, contact_threshold_seconds, as_u64, mark_ready,
  update_k8s_contact, register_watchers,
}

-- Every flag of the list is up.
abbrev pub AllAlive : List Bool → Type 0
AllAlive [] = Unit
AllAlive (alive ∷ flags) = (alive ≡ true) × AllAlive flags

any_dead-AllAlive : (flags : List Bool) → (any_dead flags ≡ false) ↔ AllAlive flags
unfolding any_dead
any_dead-AllAlive [] = (λ _. tt, λ _. refl)
any_dead-AllAlive (true ∷ flags) =
    let rest = any_dead-AllAlive flags in (λ h. (refl, rest.0 h), λ a. rest.1 a.1)
any_dead-AllAlive (false ∷ flags) = (λ h. cc, λ a. cc)

-- The endpoint answers 200 exactly if the sidecar is ready, the last contact is at most 60 seconds
-- old, by the clock in milliseconds cut to 64 bits, and every watcher is alive.
pub status_body-code :
    (elapsed : ℕ) (h : Health)
    → ((status_body elapsed h).code ≡ 200) ↔ (
        (h.ready ≡ true)
        × (as_u64 elapsed - h.last_contact_ms ≤ contact_threshold_seconds * 1000)
        × AllAlive h.watchers)
unfolding status_body unavailable
status_body-code elapsed h = ground (arith, any_dead-AllAlive h.watchers)

-- A sidecar that is marked ready, makes contact and registers watchers that are all alive answers
-- 200 until 60 seconds after the contact, while the clock in milliseconds is below 2^64.
pub status_body-contact :
    (contact elapsed : ℕ) (flags : List Bool) (h : Health)
    → elapsed ≤ contact_threshold_seconds * 1000 + contact
    → elapsed ≤ 2 ^ 64 - 1
    → contact ≤ elapsed
    → AllAlive flags
    → (status_body elapsed
        (register_watchers flags (update_k8s_contact contact (mark_ready h)))).code
      ≡ 200
status_body-contact contact elapsed flags h soon small later alive =
    let h' = register_watchers flags (update_k8s_contact contact (mark_ready h)) in
    (status_body-code elapsed h').1 (refl, omega arith, alive)
