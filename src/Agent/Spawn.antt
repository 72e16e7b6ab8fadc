-- ===== src/Agent/Spawn.antt =====
-- `RelayAgent::run`, `spawn_v4_tasks` and `spawn_v6_tasks` of lib.rs: the choice of the interfaces,
-- the socket addresses, the binds and the start of the tasks. A task that was started runs on when
-- its handle is dropped.
pub mod Loop
pub mod Steps
pub mod Started
pub mod Failing
use dhcp_relay_agent.Common.{
  ℕ, Bool, true, false, Option, none, some, List, [], ◌∷◌, ◌++◌, Bytes, Result, ok, err, map_err,
  length,
}
use dhcp_relay_agent.Net.{SocketAddr}
use dhcp_relay_agent.Net.Text.{split, first_piece}
use dhcp_relay_agent.Net.Socket.{parse_socket}
use dhcp_relay_agent.Error.{Text, text, RelayError, RelayResult}
use dhcp_relay_agent.Config.{RelayConfig, InterfaceConfig}
use dhcp_relay_agent.Transport.{Sockets, UdpTransport, bind}
use dhcp_relay_agent.V4.Dhcproto.{Dhcproto}
use dhcp_relay_agent.V6.Dhcproto.{DhcprotoV6}
use dhcp_relay_agent.Agent.Receive.{Task, v4_task, v6_task}
use dhcp_relay_agent.Agent.Setup.{v4_task_of, v6_task_of}

-- The addresses that were bound or tried, and the tasks that were started.
pub record Runtime : Type 1 where
  pub tried : List SocketAddr
  pub tasks : List Task

abbrev pub Spawning : Type 0 → Type 1
Spawning A = Runtime → RelayResult A × Runtime

abbrev pub and_then :
    {A B : Type 0} → RelayResult A × Runtime → (A → Spawning B) → RelayResult B × Runtime
and_then (ok a, rt) f = f a rt
and_then (err e, rt) f = (err e, rt)

infixl 10 ◌>>=◌
abbrev pub ◌>>=◌ : {A B : Type 0} → Spawning A → (A → Spawning B) → Spawning B
(m >>= f) rt = and_then (m rt) f

abbrev pub pure : {A : Type 0} → A → Spawning A
pure a rt = (ok a, rt)

-- `AddrParseError` of a socket address, as it is printed.
abbrev pub syntax_error : Text
syntax_error = text "invalid socket address syntax" ∷ []

-- `text.parse().map_err(…)?`
unfoldable pub parsed : Text → Bytes → Spawning SocketAddr
parsed prefix address rt = elim (parse_socket address) [
  | some a ↦ (ok a, rt)
  | none ↦ (err (RelayError.config (prefix ++ syntax_error)), rt)
]

-- `UdpTransport::bind(addr).await.map_err(…)?`
unfoldable pub bound : Sockets → Text → SocketAddr → Spawning UdpTransport
bound sockets prefix addr rt = (
  map_err (λ e. RelayError.transport (prefix ++ e)) (bind sockets rt.tried addr),
  record rt { tried = rt.tried ++ addr ∷ [] },
)

-- `tokio::spawn`, which returns a handle: here the task's place.
unfoldable pub spawn : Task → Spawning ℕ
spawn t rt = (ok (length rt.tasks), record rt { tasks = rt.tasks ++ t ∷ [] })

-- The loop over the interfaces that are enabled, which ends at the first error.
unfoldable pub spawn_each :
    (InterfaceConfig → Spawning ℕ) → List InterfaceConfig → List ℕ → Spawning (List ℕ)
spawn_each one [] handles = pure handles
spawn_each one (iface ∷ ifaces) handles = elim iface.enabled [
  | false ↦ spawn_each one ifaces handles
  | true ↦ (do handle ← one iface; spawn_each one ifaces (handles ++ handle ∷ []))
]

abbrev pub port_547 : Bytes
port_547 = b':' ∷ b'5' ∷ b'4' ∷ b'7' ∷ []

-- The text before the first colon, with port 547.
unfoldable pub v6_bind_text : InterfaceConfig → Bytes
v6_bind_text iface = first_piece (split b':' iface.ip_addr) ++ port_547

module _ (sockets : Sockets) (d4 : Dhcproto) (d6 : DhcprotoV6) (cfg : RelayConfig) where
  unfoldable pub spawn_v4_task : InterfaceConfig → Spawning ℕ
  spawn_v4_task iface = do
    bind_addr ← parsed (text "invalid IP: " ∷ []) iface.ip_addr
    transport ← bound sockets (text "bind: " ∷ []) bind_addr
    spawn (v4_task d4 (v4_task_of cfg iface bind_addr))

  unfoldable pub spawn_v6_task : InterfaceConfig → Spawning ℕ
  spawn_v6_task iface = do
    bind_addr ← parsed (text "invalid v6 IP: " ∷ []) (v6_bind_text iface)
    transport ← bound sockets (text "v6 bind: " ∷ []) bind_addr
    spawn (v6_task d6 (v6_task_of cfg iface bind_addr (map_err RelayError.io transport.local_addr)))

  unfoldable pub spawn_v4_tasks : Spawning (List ℕ)
  spawn_v4_tasks = spawn_each spawn_v4_task cfg.interfaces []

  unfoldable pub spawn_v6_tasks : Spawning (List ℕ)
  spawn_v6_tasks = spawn_each spawn_v6_task cfg.interfaces []

  -- `run` up to the point where it waits for the tasks of its handles, in a build with the features
  -- dhcpv4 and dhcpv6. The default build has dhcpv4 alone, and ends behind `spawn_v4_tasks`.
  unfoldable pub start_tasks : Spawning (List ℕ)
  start_tasks = do handles4 ← spawn_v4_tasks; handles6 ← spawn_v6_tasks; pure (handles4 ++ handles6)
