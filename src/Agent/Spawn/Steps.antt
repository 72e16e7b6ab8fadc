-- ===== src/Agent/Spawn/Steps.antt =====
-- The steps of `spawn_v4_tasks` and `spawn_v6_tasks` (lib.rs) where the binds succeed.
use dhcp_relay_agent.Common.{
  ℕ, none, some, List, [], ◌∷◌, ◌++◌, Bytes, Result, ok, err, map_err, ◌≡◌, ◌∙◌, sym, ap, length,
  replicate, append-nil,
}
use dhcp_relay_agent.Net.{SocketAddr}
use dhcp_relay_agent.Net.Socket.{parse_socket}
use dhcp_relay_agent.Error.{Text, text, RelayError}
use dhcp_relay_agent.Config.{RelayConfig, InterfaceConfig}
use dhcp_relay_agent.Transport.{Sockets, UdpTransport, buf_len, bind}
use dhcp_relay_agent.V4.Dhcproto.{Dhcproto}
use dhcp_relay_agent.V6.Dhcproto.{DhcprotoV6}
use dhcp_relay_agent.Agent.Receive.{Task, v4_task, v6_task}
use dhcp_relay_agent.Agent.Setup.{v4_task_of, v6_task_of}
use dhcp_relay_agent.Agent.Spawn.{
  Runtime, syntax_error, parsed, bound, spawn, spawn_each, spawn_v4_task, spawn_v6_task,
  v6_bind_text, spawn_v4_tasks, spawn_v6_tasks, start_tasks,
}
use dhcp_relay_agent.Agent.Spawn.Loop.{places, Enabled, grown, spawn_each-Enabled}

-- An interface, with the address that a task of it is bound to.
abbrev pub Place : Type 0
Place = InterfaceConfig × SocketAddr

abbrev pub addr_of : Place → SocketAddr
addr_of p = p.1

abbrev pub Binds4 : Place → InterfaceConfig → Type 0
Binds4 p i = (p.0 ≡ i) × (parse_socket i.ip_addr ≡ some p.1)

abbrev pub Binds6 : Place → InterfaceConfig → Type 0
Binds6 p i = (p.0 ≡ i) × (parse_socket (v6_bind_text i) ≡ some p.1)

parsed-some :
    (prefix : Text) (t : Bytes) (a : SocketAddr) (rt : Runtime)
    → parse_socket t ≡ some a
    → parsed prefix t rt ≡ (ok a, rt)
unfolding parsed
parsed-some prefix t a rt e = rw (e, parsed)

pub parsed-none :
    (prefix : Text) (t : Bytes) (rt : Runtime)
    → parse_socket t ≡ none
    → parsed prefix t rt ≡ (err (RelayError.config (prefix ++ syntax_error)), rt)
unfolding parsed
parsed-none prefix t rt e = rw (e, parsed)

module _ (sockets : Sockets) (local : SocketAddr → Result Text SocketAddr) where
  -- Every bind succeeds.
  abbrev pub CanBind : Type 0
  CanBind = (earlier : List SocketAddr) (a : SocketAddr) → sockets earlier a ≡ ok (local a)

  abbrev transport_at : SocketAddr → UdpTransport
  transport_at a = record { local_addr = local a; buf = replicate buf_len 0 }

  bound-CanBind :
      (prefix : Text) (a : SocketAddr) (rt : Runtime)
      → CanBind
      → bound sockets prefix a rt ≡ (ok (transport_at a), record rt { tried = rt.tried ++ a ∷ [] })
  unfolding bound bind
  bound-CanBind prefix a rt can_bind = rw (can_bind rt.tried a)

  module _ (d4 : Dhcproto) (d6 : DhcprotoV6) (cfg : RelayConfig) where
    abbrev pub task4_at : Place → Task
    task4_at p = v4_task d4 (v4_task_of cfg p.0 p.1)

    abbrev pub task6_at : Place → Task
    task6_at p = v6_task d6 (v6_task_of cfg p.0 p.1 (map_err RelayError.io (local p.1)))

    module _ (can_bind : CanBind) where
      spawn_v4_task-Binds4 :
          (p : Place) (i : InterfaceConfig) (rt : Runtime)
          → Binds4 p i
          → spawn_v4_task sockets d4 d6 cfg i rt
            ≡ (ok (length rt.tasks), grown addr_of task4_at (p ∷ []) rt)
      unfolding spawn_v4_task spawn
      spawn_v4_task-Binds4 p i rt (is_i, e) = rw (
        parsed-some (text "invalid IP: " ∷ []) i.ip_addr p.1 rt e,
        bound-CanBind (text "bind: " ∷ []) p.1 rt can_bind,
        is_i,
      )

      spawn_v6_task-Binds6 :
          (p : Place) (i : InterfaceConfig) (rt : Runtime)
          → Binds6 p i
          → spawn_v6_task sockets d4 d6 cfg i rt
            ≡ (ok (length rt.tasks), grown addr_of task6_at (p ∷ []) rt)
      unfolding spawn_v6_task spawn
      spawn_v6_task-Binds6 p i rt (is_i, e) = rw (
        parsed-some (text "invalid v6 IP: " ∷ []) (v6_bind_text i) p.1 rt e,
        bound-CanBind (text "v6 bind: " ∷ []) p.1 rt can_bind,
        is_i,
      )

      -- The loop over the interfaces whose tasks start.
      pub spawn_v4_each-Enabled :
          (ps : List Place) (is rest : List InterfaceConfig) (hs : List ℕ) (rt : Runtime)
          → Enabled Binds4 ps is
          → spawn_each (spawn_v4_task sockets d4 d6 cfg) (is ++ rest) hs rt
            ≡ spawn_each
                (spawn_v4_task sockets d4 d6 cfg)
                rest
                (hs ++ places (length rt.tasks) (length ps))
                (grown addr_of task4_at ps rt)
      spawn_v4_each-Enabled ps is rest hs rt e =
          spawn_each-Enabled addr_of task4_at Binds4 (spawn_v4_task sockets d4 d6 cfg)
            spawn_v4_task-Binds4 rest hs rt e

      pub spawn_v6_each-Enabled :
          (ps : List Place) (is rest : List InterfaceConfig) (hs : List ℕ) (rt : Runtime)
          → Enabled Binds6 ps is
          → spawn_each (spawn_v6_task sockets d4 d6 cfg) (is ++ rest) hs rt
            ≡ spawn_each
                (spawn_v6_task sockets d4 d6 cfg)
                rest
                (hs ++ places (length rt.tasks) (length ps))
                (grown addr_of task6_at ps rt)
      spawn_v6_each-Enabled ps is rest hs rt e =
          spawn_each-Enabled addr_of task6_at Binds6 (spawn_v6_task sockets d4 d6 cfg)
            spawn_v6_task-Binds6 rest hs rt e

      pub spawn_v4_tasks-Enabled :
          (ps : List Place) (rt : Runtime)
          → Enabled Binds4 ps cfg.interfaces
          → spawn_v4_tasks sockets d4 d6 cfg rt
            ≡ (ok (places (length rt.tasks) (length ps)), grown addr_of task4_at ps rt)
      unfolding spawn_v4_tasks spawn_each
      spawn_v4_tasks-Enabled ps rt e =
          ap (λ is. spawn_each (spawn_v4_task sockets d4 d6 cfg) is [] rt)
            (sym (append-nil cfg.interfaces))
          ∙ spawn_v4_each-Enabled ps cfg.interfaces [] [] rt e

      spawn_v6_tasks-Enabled :
          (ps : List Place) (rt : Runtime)
          → Enabled Binds6 ps cfg.interfaces
          → spawn_v6_tasks sockets d4 d6 cfg rt
            ≡ (ok (places (length rt.tasks) (length ps)), grown addr_of task6_at ps rt)
      unfolding spawn_v6_tasks spawn_each
      spawn_v6_tasks-Enabled ps rt e =
          ap (λ is. spawn_each (spawn_v6_task sockets d4 d6 cfg) is [] rt)
            (sym (append-nil cfg.interfaces))
          ∙ spawn_v6_each-Enabled ps cfg.interfaces [] [] rt e

      pub start_tasks-Enabled :
          (ps qs : List Place) (rt : Runtime)
          → Enabled Binds4 ps cfg.interfaces
          → Enabled Binds6 qs cfg.interfaces
          → let rt' = grown addr_of task4_at ps rt in
            start_tasks sockets d4 d6 cfg rt ≡ (
              ok (places (length rt.tasks) (length ps) ++ places (length rt'.tasks) (length qs)),
              grown addr_of task6_at qs rt',
            )
      unfolding start_tasks
      start_tasks-Enabled ps qs rt e f = rw (
        spawn_v4_tasks-Enabled ps rt e,
        spawn_v6_tasks-Enabled qs (grown addr_of task4_at ps rt) f,
      )
