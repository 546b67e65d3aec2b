-- ===== src/Health/Listen.antt =====
-- src/health.rs: `bind_listener` and `start_health_server`. Sockets and name resolution are a
-- parameter.
use mathlib.Core.Option
use k8s_sidecar_rs.Base.{
  Text, ascii, ℕ, ◌++◌, Bool, true, false, not, Option, none, some, List, [], ◌∷◌, ◌==◌, nat_eq,
  list_eq, Result, ok, err, filter_option, unwrap_or, leb, if◌then◌else◌,
}
use k8s_sidecar_rs.Base.Number.{parse_unsigned, u16_limit, decimal}
use k8s_sidecar_rs.Health.Status
use k8s_sidecar_rs.Host.World.{Host}
use k8s_sidecar_rs.Host.Io.{Io, Act, pure, ◌>>=◌, ◌>>◌, ◌>>=?◌, info, warning, error}

-- socket2 and std::net. A setter whose result the code drops has none.
pub record Sockets (Net : Type 0) : Type 1 where
  pub Addr : Type 0
  pub Socket : Type 0
  pub Listener : Type 0
  pub is_ipv6 : Addr → Bool
  -- an IP literal with a port
  pub parse_ip : Text → ℕ → Option Addr
  pub to_socket_addrs : Text → ℕ → Net → Result (List Addr) Text × Net
  -- the literals `[::]` and `0.0.0.0`
  pub any_v6 : ℕ → Addr
  pub any_v4 : ℕ → Addr
  -- a stream socket, of IPv6 if asked for
  pub new : Bool → Net → Result Socket Text × Net
  pub set_reuse_address : Socket → Net → Net
  pub set_dual_stack : Socket → Net → Net
  pub bind : Socket → Addr → Net → Result Unit Text × Net
  pub listen : Socket → ℕ → Net → Result Unit Text × Net
  pub set_nonblocking : Socket → Net → Result Listener Text × Net
  -- tokio's TcpListener::from_std
  pub from_std : Listener → Net → Result Listener Text × Net

module _ {A : Type 0} (is_ipv6 : A → Bool) where
  -- The key of the sort.
  abbrev pub family_rank : A → ℕ
  family_rank a = if is_ipv6 a then 0 else 1

  -- `sort_by_key`, which is stable.
  unfoldable pub insert_addr : A → List A → List A
  insert_addr a [] = a ∷ []
  insert_addr a (b ∷ addrs) =
      let rest = insert_addr a addrs in
      if leb (family_rank a) (family_rank b) then a ∷ b ∷ addrs else b ∷ rest

  unfoldable pub sort_addrs : List A → List A
  sort_addrs [] = []
  sort_addrs (a ∷ addrs) = insert_addr a (sort_addrs addrs)

  -- `into_iter().next()`
  abbrev pub head : List A → Option A
  head [] = none
  head (a ∷ addrs) = some a

module _ (H : Host) (S : Sockets H.Net) where
  abbrev on_socket : {A : Type 0} → (H.Net → Result A Text × H.Net) → Act H Text A
  on_socket call w = let (r, n) = call w.net in (r, record w { net = n })

  -- The closure `bind`.
  unfoldable pub bind : Bool → S.Addr → Act H Text S.Listener
  bind is_v6 addr = on_socket (S.new is_v6) >>=? λ sock.
      ((λ w. (
        ok tt,
        record w {
          net =
              (if is_v6
                then S.set_dual_stack sock (S.set_reuse_address sock w.net)
                else S.set_reuse_address sock w.net);
        },
      ))
        >>=? λ u.
            (on_socket (S.bind sock addr) >>=? λ bound.
            (on_socket (S.listen sock 128) >>=? λ listening. on_socket (S.set_nonblocking sock))))

  abbrev chosen : Option S.Addr → Result S.Addr Text
  chosen none = err (ascii "cannot resolve HEALTH_HOST")
  chosen (some addr) = ok addr

  abbrev addrs_or_none : Result (List S.Addr) Text → List S.Addr
  addrs_or_none (ok addrs) = addrs
  addrs_or_none (err e) = []

  -- An IP literal, or the first address of the name, IPv6 before IPv4.
  unfoldable pub health_addr : Text → ℕ → Act H Text S.Addr
  health_addr host port w = elim (S.parse_ip host port) [
    | some addr ↦ (ok addr, w)
    | none ↦
        let (got, net) = S.to_socket_addrs host port w.net in
        (chosen (head S.is_ipv6 (sort_addrs S.is_ipv6 (addrs_or_none got))), record w { net = net })
  ]

  abbrev or_v4 : ℕ → Result S.Listener Text → Act H Text S.Listener
  or_v4 port (ok l) = pure (ok l)
  or_v4 port (err e) =
      warning H (ascii "IPv6 not available, falling back to IPv4 for the health server")
      >> bind false (S.any_v4 port)

  abbrev bind_host : ℕ → Option Text → Act H Text S.Listener
  bind_host port (some host) = health_addr host port >>=? λ addr. bind (S.is_ipv6 addr) addr
  bind_host port none = bind true (S.any_v6 port) >>= or_v4 port

  unfoldable pub bind_listener : ℕ → Act H Text S.Listener
  bind_listener port =
      bind_host port (filter_option (λ (h : Text). not (h == [])) (H.var (ascii "HEALTH_HOST")))

  abbrev pub failed_msg : Text → Text
  failed_msg e = ascii "Failed to start health server: " ++ e

  abbrev served : ℕ → Result S.Listener Text → Io H Unit
  served port (ok l) = info H (ascii "Starting health server on port " ++ decimal port)
  served port (err e) = error H (failed_msg e)

  abbrev listened : ℕ → Result S.Listener Text → Io H Unit
  listened port (ok l) = on_socket (S.from_std l) >>= served port
  listened port (err e) = error H (failed_msg e)

  -- The contact starts now. Whether the server could be started shows in the log only.
  unfoldable pub start_health_server : Io H Unit
  start_health_server w =
      let port =
        unwrap_or (Option.bind (H.var (ascii "HEALTH_PORT")) (parse_unsigned 10 u16_limit)) 8080 in
      let health = Status.update_k8s_contact (H.elapsed_ms w.net) w.health in
      (bind_listener port >>= listened port) (record w { health = health })

-- The reference: the first IPv6 address, else the first address.
abbrev pub first_v6 : {A : Type 0} → (A → Bool) → List A → Option A
first_v6 is_ipv6 [] = none
first_v6 is_ipv6 (a ∷ addrs) = if is_ipv6 a then some a else first_v6 is_ipv6 addrs
