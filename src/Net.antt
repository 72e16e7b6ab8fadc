-- ===== src/Net.antt =====
-- The addresses of the standard library, `std::net`, as the code uses them. Octets are numbers
-- below 256 and segments numbers below 65536. The flow label and the scope of an IPv6 socket
-- address are read by no code and left out.
pub mod Text
pub mod Socket
use dhcp_relay_agent.Common.{
  ℕ, ◌/◌, ◌%◌, ◌≡◌, ◌↔◌, Bool, true, false, ◌&&◌, [], ◌∷◌, arith, Eq, ◌==◌, nat_eq, nat_beq, leb,
  Bytes,
}

pub record Ipv4Addr : Type 0 where
  pub a : ℕ
  pub b : ℕ
  pub c : ℕ
  pub d : ℕ

abbrev pub ipv4 : ℕ → ℕ → ℕ → ℕ → Ipv4Addr
ipv4 a b c d = record { a = a; b = b; c = c; d = d }

pub record Ipv6Addr : Type 0 where
  pub s0 : ℕ
  pub s1 : ℕ
  pub s2 : ℕ
  pub s3 : ℕ
  pub s4 : ℕ
  pub s5 : ℕ
  pub s6 : ℕ
  pub s7 : ℕ

abbrev pub ipv6 : ℕ → ℕ → ℕ → ℕ → ℕ → ℕ → ℕ → ℕ → Ipv6Addr
ipv6 a b c d e f g h = record { s0 = a; s1 = b; s2 = c; s3 = d; s4 = e; s5 = f; s6 = g; s7 = h }

pub data IpAddr : Type 0 where
  v4 : Ipv4Addr → IpAddr
  v6 : Ipv6Addr → IpAddr

pub record SocketAddr : Type 0 where
  pub ip : IpAddr
  pub port : ℕ

abbrev pub socket : IpAddr → ℕ → SocketAddr
socket ip port = record { ip = ip; port = port }

-- `Ipv4Addr::UNSPECIFIED`, `Ipv6Addr::UNSPECIFIED`
abbrev pub unspecified4 : Ipv4Addr
unspecified4 = ipv4 0 0 0 0

abbrev pub unspecified6 : Ipv6Addr
unspecified6 = ipv6 0 0 0 0 0 0 0 0

abbrev pub octets4 : Ipv4Addr → Bytes
octets4 ip = ip.a ∷ ip.b ∷ ip.c ∷ ip.d ∷ []

abbrev pub octets6 : Ipv6Addr → Bytes
octets6 ip =
    ip.s0 / 256
    ∷ ip.s0 % 256
    ∷ ip.s1 / 256
    ∷ ip.s1 % 256
    ∷ ip.s2 / 256
    ∷ ip.s2 % 256
    ∷ ip.s3 / 256
    ∷ ip.s3 % 256
    ∷ ip.s4 / 256
    ∷ ip.s4 % 256
    ∷ ip.s5 / 256
    ∷ ip.s5 % 256
    ∷ ip.s6 / 256
    ∷ ip.s6 % 256
    ∷ ip.s7 / 256
    ∷ ip.s7 % 256
    ∷ []

abbrev pub octets : IpAddr → Bytes
octets (v4 ip) = octets4 ip
octets (v6 ip) = octets6 ip

-- `Ipv4Addr::is_multicast`: 224.0.0.0/4; `Ipv6Addr::is_multicast`: ff00::/8
abbrev pub is_multicast4 : Ipv4Addr → Bool
is_multicast4 ip = leb 224 ip.a && leb ip.a 239

abbrev pub is_multicast6 : Ipv6Addr → Bool
is_multicast6 ip = (ip.s0 / 256) == 0xff

abbrev pub ipv4_beq : Ipv4Addr → Ipv4Addr → Bool
ipv4_beq x y = nat_beq x.a y.a && nat_beq x.b y.b && nat_beq x.c y.c && nat_beq x.d y.d

pub ipv4_beq_iff : (x y : Ipv4Addr) → (ipv4_beq x y ≡ true) ↔ (x ≡ y)
ipv4_beq_iff x y = ground arith

abbrev pub ipv6_beq : Ipv6Addr → Ipv6Addr → Bool
ipv6_beq x y =
    nat_beq x.s0 y.s0
    && nat_beq x.s1 y.s1
    && nat_beq x.s2 y.s2
    && nat_beq x.s3 y.s3
    && nat_beq x.s4 y.s4
    && nat_beq x.s5 y.s5
    && nat_beq x.s6 y.s6
    && nat_beq x.s7 y.s7

pub ipv6_beq_iff : (x y : Ipv6Addr) → (ipv6_beq x y ≡ true) ↔ (x ≡ y)
ipv6_beq_iff x y = ground arith

abbrev pub ip_beq : IpAddr → IpAddr → Bool
ip_beq (v4 x) (v4 y) = ipv4_beq x y
ip_beq (v6 x) (v6 y) = ipv6_beq x y
ip_beq _ _ = false

pub ip_beq_iff : (x y : IpAddr) → (ip_beq x y ≡ true) ↔ (x ≡ y)
ip_beq_iff (v4 x) (v4 y) = ground (arith, ipv4_beq_iff x y)
ip_beq_iff (v6 x) (v6 y) = ground (arith, ipv6_beq_iff x y)
ip_beq_iff (v4 x) (v6 y) = ground arith
ip_beq_iff (v6 x) (v4 y) = ground arith

instance abbrev pub ipv4_eq : Eq Ipv4Addr
ipv4_eq = record { beq = ipv4_beq; beq_iff = ipv4_beq_iff }

instance abbrev pub ip_eq : Eq IpAddr
ip_eq = record { beq = ip_beq; beq_iff = ip_beq_iff }
