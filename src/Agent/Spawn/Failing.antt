-- ===== src/Agent/Spawn/Failing.antt =====
-- `run` of lib.rs where it fails: the interfaces that it refuses, and what it leaves behind.
use dhcp_relay_agent.Common.{
  ℕ, true, false, none, some, List, [], ◌∷◌, ◌++◌, Bytes, Result, ok, err, ◌≡◌, ◌∙◌, refl, sym, ap,
  arith, contains, nat_eq, inl, inr, Option-cases,
}
use dhcp_relay_agent.Net.{Ipv4Addr, SocketAddr}
use dhcp_relay_agent.Net.Text.{split, first_piece}
use dhcp_relay_agent.Net.Text.RoundTrip.{first_piece-contains}
use dhcp_relay_agent.Net.Socket.{before, parse_socket}
use dhcp_relay_agent.Net.Socket.Rejects.{parse_socket-none, parse_socket-colon}
use dhcp_relay_agent.Error.{Text, text, RelayError}
use dhcp_relay_agent.Config.{RelayConfig, InterfaceConfig}
use dhcp_relay_agent.Transport.{Sockets}
use dhcp_relay_agent.V4.Dhcproto.{Dhcproto}
use dhcp_relay_agent.V6.Dhcproto.{DhcprotoV6}
use dhcp_relay_agent.Agent.Setup.{address_of}
use dhcp_relay_agent.Agent.Spawn.{
  Runtime, parsed, spawn_each, spawn_v4_task, spawn_v6_task, v6_bind_text, spawn_v4_tasks,
  spawn_v6_tasks, start_tasks, syntax_error, pure,
}
use dhcp_relay_agent.Agent.Spawn.Loop.{Enabled, grown, and_then-ok, spawn_each-ok, spawn_each-fails}
use dhcp_relay_agent.Agent.Spawn.Steps.{
  Place, addr_of, Binds4, Binds6, CanBind, task4_at, task6_at, parsed-none, spawn_v4_tasks-Enabled,
  spawn_v4_each-Enabled, spawn_v6_each-Enabled,
}

-- The DHCPv6 task's text is an IPv4 address's or none.
v6_bind_text-none :
    (i : InterfaceConfig) → address_of i ≡ none → parse_socket (v6_bind_text i) ≡ none
unfolding v6_bind_text address_of
v6_bind_text-none i h =
    parse_socket-colon (first_piece (split b':' i.ip_addr)) (b'5' ∷ b'4' ∷ b'7' ∷ [])
      (first_piece-contains b':' i.ip_addr) refl (unfold before in refl)
    ∙ rw h

parsed-ok :
    (prefix : Text) (t : Bytes) (a : SocketAddr) (rt : Runtime)
    → (parsed prefix t rt).0 ≡ ok a
    → parse_socket t ≡ some a
unfolding parsed
parsed-ok prefix t a rt e = elim (Option-cases (parse_socket t)) [
  | inl n ↦ ground (arith, n, e)
  | inr (x, h) ↦ ground (arith, h, e)
]

module _ (sockets : Sockets) (d4 : Dhcproto) (d6 : DhcprotoV6) (cfg : RelayConfig) where
  spawn_v4_task-ok :
      (i : InterfaceConfig) (rt : Runtime) (handle : ℕ)
      → (spawn_v4_task sockets d4 d6 cfg i rt).0 ≡ ok handle
      → (a : SocketAddr) × (parse_socket i.ip_addr ≡ some a)
  unfolding spawn_v4_task
  spawn_v4_task-ok i rt handle e =
      let (a, h, _) = and_then-ok (parsed (text "invalid IP: " ∷ []) i.ip_addr rt) _ handle e in
      (a, parsed-ok (text "invalid IP: " ∷ []) i.ip_addr a rt h)

  spawn_v6_task-ok :
      (i : InterfaceConfig) (rt : Runtime) (handle : ℕ)
      → (spawn_v6_task sockets d4 d6 cfg i rt).0 ≡ ok handle
      → (ip : Ipv4Addr) × (address_of i ≡ some ip)
  unfolding spawn_v6_task
  spawn_v6_task-ok i rt handle e =
      let (a, h, _) =
        and_then-ok (parsed (text "invalid v6 IP: " ∷ []) (v6_bind_text i) rt) _ handle e in
      elim (Option-cases (address_of i)) [
        | inl n ↦ ground (
          arith,
          parsed-ok (text "invalid v6 IP: " ∷ []) (v6_bind_text i) a rt h,
          v6_bind_text-none i n,
        )
        | inr found ↦ found
      ]

  -- If `run` does not fail at the start of its tasks, then every enabled interface is configured
  -- with a socket address, and the text before the first colon of it is an IPv4 address.
  pub start_tasks-ok :
      (i : InterfaceConfig) (front back : List InterfaceConfig) (rt : Runtime) (handles : List ℕ)
      → cfg.interfaces ≡ front ++ i ∷ back
      → i.enabled ≡ true
      → (start_tasks sockets d4 d6 cfg rt).0 ≡ ok handles
      → ((a : SocketAddr) × (parse_socket i.ip_addr ≡ some a))
        × ((ip : Ipv4Addr) × (address_of i ≡ some ip))
  unfolding start_tasks spawn_v4_tasks spawn_v6_tasks
  start_tasks-ok i front back rt handles at on e =
      let (h4, e4, rest) = and_then-ok (spawn_v4_tasks sockets d4 d6 cfg rt) _ handles e in
      let (h6, e6, _) =
        and_then-ok (spawn_v6_tasks sockets d4 d6 cfg (spawn_v4_tasks sockets d4 d6 cfg rt).1)
          (λ h. pure (h4 ++ h)) handles rest in
      let (rt4, handle4, s4) =
        spawn_each-ok (spawn_v4_task sockets d4 d6 cfg) i front back [] h4 rt on
          (sym (ap (λ is. (spawn_each (spawn_v4_task sockets d4 d6 cfg) is [] rt).0) at) ∙ e4) in
      let (rt6, handle6, s6) =
        spawn_each-ok (spawn_v6_task sockets d4 d6 cfg) i front back [] h6 _ on (
          sym (
            ap
              (λ is.
                (spawn_each (spawn_v6_task sockets d4 d6 cfg) is []
                  (spawn_v4_tasks sockets d4 d6 cfg rt).1).0)
              at)
          ∙ e6) in
      (spawn_v4_task-ok i rt4 handle4 s4, spawn_v6_task-ok i rt6 handle6 s6)

  spawn_v4_task-none :
      (i : InterfaceConfig) (rt : Runtime)
      → parse_socket i.ip_addr ≡ none
      → spawn_v4_task sockets d4 d6 cfg i rt
        ≡ (err (RelayError.config (text "invalid IP: " ∷ syntax_error)), rt)
  unfolding spawn_v4_task
  spawn_v4_task-none i rt h = rw (parsed-none (text "invalid IP: " ∷ []) i.ip_addr rt h)

  spawn_v6_task-none :
      (i : InterfaceConfig) (rt : Runtime)
      → parse_socket (v6_bind_text i) ≡ none
      → spawn_v6_task sockets d4 d6 cfg i rt
        ≡ (err (RelayError.config (text "invalid v6 IP: " ∷ syntax_error)), rt)
  unfolding spawn_v6_task
  spawn_v6_task-none i rt h = rw (parsed-none (text "invalid v6 IP: " ∷ []) (v6_bind_text i) rt h)

module _ (sockets : Sockets) (local : SocketAddr → Result Text SocketAddr) (d4 : Dhcproto)
    (d6 : DhcprotoV6) (cfg : RelayConfig) (can_bind : CanBind sockets local) where
  spawn_v4_tasks-bare :
      (ps : List Place) (i : InterfaceConfig) (front back : List InterfaceConfig) (rt : Runtime)
      → cfg.interfaces ≡ front ++ i ∷ back
      → Enabled Binds4 ps front
      → i.enabled ≡ true
      → contains i.ip_addr b':' ≡ false
      → spawn_v4_tasks sockets d4 d6 cfg rt ≡ (
        err (RelayError.config (text "invalid IP: " ∷ syntax_error)),
        grown addr_of (task4_at sockets local d4 d6 cfg) ps rt,
      )
  unfolding spawn_v4_tasks
  spawn_v4_tasks-bare ps i front back rt at e on bare =
      ap (λ is. spawn_each (spawn_v4_task sockets d4 d6 cfg) is [] rt) at
      ∙ spawn_v4_each-Enabled sockets local d4 d6 cfg can_bind ps front (i ∷ back) [] rt e
      ∙ spawn_each-fails (spawn_v4_task sockets d4 d6 cfg) i back _ _ _ on
          (spawn_v4_task-none sockets d4 d6 cfg i _ (parse_socket-none i.ip_addr bare))

  spawn_v6_tasks-none :
      (qs : List Place) (i : InterfaceConfig) (front back : List InterfaceConfig) (rt : Runtime)
      → cfg.interfaces ≡ front ++ i ∷ back
      → Enabled Binds6 qs front
      → i.enabled ≡ true
      → address_of i ≡ none
      → spawn_v6_tasks sockets d4 d6 cfg rt ≡ (
        err (RelayError.config (text "invalid v6 IP: " ∷ syntax_error)),
        grown addr_of (task6_at sockets local d4 d6 cfg) qs rt,
      )
  unfolding spawn_v6_tasks
  spawn_v6_tasks-none qs i front back rt at f on none6 =
      ap (λ is. spawn_each (spawn_v6_task sockets d4 d6 cfg) is [] rt) at
      ∙ spawn_v6_each-Enabled sockets local d4 d6 cfg can_bind qs front (i ∷ back) [] rt f
      ∙ spawn_each-fails (spawn_v6_task sockets d4 d6 cfg) i back _ _ _ on
          (spawn_v6_task-none sockets d4 d6 cfg i _ (v6_bind_text-none i none6))

  -- If all binds succeed and an enabled interface is configured with an address without a port, then
  -- `run` fails with the configuration error for an invalid address, and the DHCPv4 tasks of the
  -- enabled interfaces before it, and no others, have been started and run on without a handle.
  pub start_tasks-bare :
      (ps : List Place) (i : InterfaceConfig) (front back : List InterfaceConfig) (rt : Runtime)
      → cfg.interfaces ≡ front ++ i ∷ back
      → Enabled Binds4 ps front
      → i.enabled ≡ true
      → contains i.ip_addr b':' ≡ false
      → start_tasks sockets d4 d6 cfg rt ≡ (
        err (RelayError.config (text "invalid IP: " ∷ syntax_error)),
        grown addr_of (task4_at sockets local d4 d6 cfg) ps rt,
      )
  unfolding start_tasks
  start_tasks-bare ps i front back rt at e on bare =
      rw (spawn_v4_tasks-bare ps i front back rt at e on bare)

  -- If all binds succeed, every enabled interface is configured with a socket address and the text
  -- before the first colon of one of them is not an IPv4 address, as for every IPv6 address, then
  -- `run` fails with the configuration error for an invalid IPv6 address; all DHCPv4 tasks and the
  -- DHCPv6 tasks of the enabled interfaces before that one have been started and run on without a
  -- handle.
  pub start_tasks-v6_address :
      (ps qs : List Place) (i : InterfaceConfig) (front back : List InterfaceConfig) (rt : Runtime)
      → cfg.interfaces ≡ front ++ i ∷ back
      → Enabled Binds4 ps cfg.interfaces
      → Enabled Binds6 qs front
      → i.enabled ≡ true
      → address_of i ≡ none
      → start_tasks sockets d4 d6 cfg rt ≡ (
        err (RelayError.config (text "invalid v6 IP: " ∷ syntax_error)),
        grown addr_of
            (task6_at sockets local d4 d6 cfg)
            qs
            (grown addr_of (task4_at sockets local d4 d6 cfg) ps rt),
      )
  unfolding start_tasks
  start_tasks-v6_address ps qs i front back rt at e f on none6 = rw (
    spawn_v4_tasks-Enabled sockets local d4 d6 cfg can_bind ps rt e,
    spawn_v6_tasks-none qs i front back _ at f on none6,
  )
