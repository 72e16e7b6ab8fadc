-- ===== src/Agent/Spawn/Started.antt =====
-- `run` of lib.rs where every enabled interface has an IPv4 address with a port.
use dhcp_relay_agent.Common.{
  ℕ, suc, ◌+◌, ◌*◌, ◌-◌, false, ◌&&◌, none, some, List, [], ◌∷◌, ◌++◌, Bytes, Result, map, ok, ◌≡◌,
  ◌∙◌, refl, ap, arith, length, leb, nat_eq, contains, is_empty, Bool-cases, Option-cases, inl, inr,
}
use dhcp_relay_agent.Net.{Ipv4Addr, v4, SocketAddr, socket}
use dhcp_relay_agent.Net.Text.{split, first_piece, decimal}
use dhcp_relay_agent.Net.Text.RoundTrip.{
  show_ipv4, IsOctets, show_ipv4-colon, parse_ipv4-show_ipv4, first_piece-show_ipv4,
}
use dhcp_relay_agent.Net.Socket.{before, number, parse_port, parse_socket}
use dhcp_relay_agent.Net.Socket.Rejects.{parse_socket-colon}
use dhcp_relay_agent.Error.{Text}
use dhcp_relay_agent.Config.{RelayConfig, InterfaceConfig}
use dhcp_relay_agent.Transport.{Sockets}
use dhcp_relay_agent.V4.Dhcproto.{Dhcproto}
use dhcp_relay_agent.V6.Dhcproto.{DhcprotoV6}
use dhcp_relay_agent.Agent.Spawn.{Runtime, v6_bind_text, start_tasks, port_547}
use dhcp_relay_agent.Agent.Spawn.Loop.{places, places-append, Enabled, finished, skipped, served}
use dhcp_relay_agent.Agent.Spawn.Steps.{
  Place, addr_of, Binds4, Binds6, CanBind, task4_at, task6_at, start_tasks-Enabled,
}

decimal-none : (text : Bytes) → decimal text none ≡ none
decimal-none [] = refl
decimal-none (b ∷ text) = refl

-- A number has digits only.
decimal-contains :
    (x : ℕ) (text : Bytes) (n m : ℕ)
    → (leb b'0' x && leb x b'9') ≡ false
    → decimal text (some n) ≡ some m
    → contains text x ≡ false
decimal-contains x [] n m h e = refl
decimal-contains x (b ∷ text) n m h e =
    ground (arith, decimal-none text, decimal-contains x text (n * 10 + (b - b'0')) m h)

before-none : (sep : ℕ) (text : Bytes) → contains text sep ≡ false → before sep text ≡ none
unfolding before
before-none sep [] h = refl
before-none sep (b ∷ text) h = ground (arith, before-none sep text)

port-contains :
    (x : ℕ) (port : Bytes) (n : ℕ)
    → (leb b'0' x && leb x b'9') ≡ false
    → parse_port port ≡ some n
    → contains port x ≡ false
unfolding number
port-contains x port n h e = elim (Bool-cases (is_empty port)) [
  | inl y ↦ ground (arith, y, e)
  | inr y ↦ elim (Option-cases (decimal port (some 0))) [
    | inl z ↦ ground (arith, y, z, e)
    | inr (m, z) ↦ decimal-contains x port 0 m h z
  ]
]

-- An IPv4 address with a port is read as both.
pub parse_socket-show_ipv4 :
    (ip : Ipv4Addr) (port : Bytes) (n : ℕ)
    → IsOctets ip
    → parse_port port ≡ some n
    → parse_socket (show_ipv4 ip ++ b':' ∷ port) ≡ some (socket (v4 ip) n)
parse_socket-show_ipv4 ip port n h e = ground (
  arith,
  parse_socket-colon (show_ipv4 ip) port (show_ipv4-colon ip h) (port-contains b':' port n refl e)
      (before-none b']' port (port-contains b']' port n refl e)),
  parse_ipv4-show_ipv4 ip h,
  e,
)

-- An interface, with its address and port.
pub record Listener : Type 0 where
  pub iface : InterfaceConfig
  pub ip : Ipv4Addr
  pub port : ℕ

pub record HasSocket (l : Listener) (i : InterfaceConfig) : Type 0 where
  pub is_iface : l.iface ≡ i
  pub octets : IsOctets l.ip
  pub port_text : Bytes
  pub port : parse_port port_text ≡ some l.port
  pub address : i.ip_addr ≡ show_ipv4 l.ip ++ b':' ∷ port_text

-- Where the tasks of a listener are bound.
abbrev pub place4 : Listener → Place
place4 l = (l.iface, socket (v4 l.ip) l.port)

abbrev pub place6 : Listener → Place
place6 l = (l.iface, socket (v4 l.ip) 547)

HasSocket-Binds4 : (l : Listener) (i : InterfaceConfig) → HasSocket l i → Binds4 (place4 l) i
HasSocket-Binds4 l i h = (
  h.is_iface,
  ap parse_socket h.address ∙ parse_socket-show_ipv4 l.ip h.port_text l.port h.octets h.port,
)

HasSocket-Binds6 : (l : Listener) (i : InterfaceConfig) → HasSocket l i → Binds6 (place6 l) i
unfolding v6_bind_text
HasSocket-Binds6 l i h = (
  h.is_iface,
  ap (λ t. parse_socket (first_piece (split b':' t) ++ port_547)) h.address
      ∙ ap (λ t. parse_socket (t ++ port_547)) (first_piece-show_ipv4 l.ip h.port_text h.octets).1
      ∙ parse_socket-show_ipv4 l.ip (b'5' ∷ b'4' ∷ b'7' ∷ []) 547 h.octets (unfold number in refl),
)

Enabled-map :
    (R : Place → InterfaceConfig → Type 0) (place : Listener → Place)
    (each : (l : Listener) (i : InterfaceConfig) → HasSocket l i → R (place l) i)
    {ls : List Listener} {is : List InterfaceConfig}
    → Enabled HasSocket ls is
    → Enabled R (map place ls) is
Enabled-map R place each finished = finished
Enabled-map R place each (skipped off e) = skipped off (Enabled-map R place each e)
Enabled-map R place each (served {l} {ls} {i} {is} on h e) =
    served on (each l i h) (Enabled-map R place each e)

abbrev pub no_tasks : Runtime
no_tasks = record { tried = []; tasks = [] }

map_map {ℓ κ μ} :
    {A : Type ℓ} {B : Type κ} {C : Type μ} (f : B → C) (g : A → B) (xs : List A)
    → map f (map g xs) ≡ map (λ x. f (g x)) xs
map_map f g [] = refl
map_map f g (x ∷ xs) = ap (λ t. f (g x) ∷ t) (map_map f g xs)

length-map {ℓ κ} :
    {A : Type ℓ} {B : Type κ} (f : A → B) (xs : List A) → length (map f xs) ≡ length xs
length-map f [] = refl
length-map f (x ∷ xs) = ap suc (length-map f xs)

places_twice : (n : ℕ) → places 0 n ++ places n n ≡ places 0 (n + n)
places_twice n =
    ap (λ m. places 0 n ++ places m n) {x = n} {y = n + 0} (omega arith) ∙ places-append n n 0

-- If every enabled interface is configured with an IPv4 address and a port and every bind succeeds,
-- then `run` starts, in the order of the configuration, a DHCPv4 task for each of them, bound to
-- that address and port, and then a DHCPv6 task for each of them, bound to the same IPv4 address and
-- port 547; it has a handle for each of these tasks, and no other task is started.
pub start_tasks-HasSocket :
    (sockets : Sockets) (local : SocketAddr → Result Text SocketAddr) (d4 : Dhcproto)
    (d6 : DhcprotoV6) (cfg : RelayConfig) (ls : List Listener)
    → CanBind sockets local
    → Enabled HasSocket ls cfg.interfaces
    → start_tasks sockets d4 d6 cfg no_tasks ≡ (
      ok (places 0 (length ls + length ls)),
      record {
        tried = map (λ l. (place4 l).1) ls ++ map (λ l. (place6 l).1) ls;
        tasks =
            map (λ l. task4_at sockets local d4 d6 cfg (place4 l)) ls
            ++ map (λ l. task6_at sockets local d4 d6 cfg (place6 l)) ls;
      },
    )
start_tasks-HasSocket sockets local d4 d6 cfg ls can_bind e =
    start_tasks-Enabled sockets local d4 d6 cfg can_bind (map place4 ls) (map place6 ls) no_tasks
      (Enabled-map Binds4 place4 HasSocket-Binds4 e) (Enabled-map Binds6 place6 HasSocket-Binds6 e)
    ∙ ground (
      arith,
      length-map place4 ls,
      length-map place6 ls,
      length-map (task4_at sockets local d4 d6 cfg) (map place4 ls),
      places_twice (length ls),
      map_map addr_of place4 ls,
      map_map addr_of place6 ls,
      map_map (task4_at sockets local d4 d6 cfg) place4 ls,
      map_map (task6_at sockets local d4 d6 cfg) place6 ls,
    )
