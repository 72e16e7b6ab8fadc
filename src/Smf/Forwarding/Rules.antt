-- ===== src/Smf/Forwarding/Rules.antt =====
-- The forwarding rules of smf/forwarding.rs as a predicate on addresses.
use dhcp_relay_agent.Common.{
  ℕ, ◌≤◌, ◌<◌, ◌≡◌, ◌≢◌, ◌↔◌, true, false, List, [], ◌∷◌, All, arith, contains,
}
use dhcp_relay_agent.Net.{IpAddr, v4, v6, ip_eq, ip_beq_iff}
use dhcp_relay_agent.Smf.Forwarding.{check_forwarding_rules}

-- 224.0.0.0/4 and ff00::/8
abbrev pub IsMulticast : IpAddr → Type 0
IsMulticast (v4 ip) = (224 ≤ ip.a) × (ip.a < 240)
IsMulticast (v6 ip) = (0xff00 ≤ ip.s0) × (ip.s0 ≤ 0xffff)

-- 224.0.0.0/24 and ff02::/16
abbrev pub IsLinkLocal : IpAddr → Type 0
IsLinkLocal (v4 ip) = (ip.a ≡ 224) × (ip.b ≡ 0) × (ip.c ≡ 0)
IsLinkLocal (v6 ip) = ip.s0 ≡ 0xff02

pub record IsForwardable (src dst : IpAddr) (ttl : ℕ) (local_addrs : List IpAddr) : Type 0 where
  pub multicast : IsMulticast dst
  pub alive : 1 < ttl
  pub not_link_local : ¬ IsLinkLocal dst
  pub not_ours : All (λ a. a ≢ src) local_addrs

contains-eq-false_iff :
    (addrs : List IpAddr) (a : IpAddr) → (contains addrs a ≡ false) ↔ All (λ x. x ≢ a) addrs
contains-eq-false_iff [] a = ground arith
contains-eq-false_iff (x ∷ xs) a = ground (arith, ip_beq_iff x a, contains-eq-false_iff xs a)

-- The four rules that the function checks pass exactly for a multicast destination that is not
-- link-local, a TTL above 1 and a source that is no local address.
pub check_forwarding_rules_iff :
    (src dst : IpAddr) (ttl : ℕ) (local_addrs : List IpAddr)
    → (check_forwarding_rules src dst ttl local_addrs ≡ true)
      ↔ IsForwardable src dst ttl local_addrs
unfolding check_forwarding_rules
check_forwarding_rules_iff src (v4 ip) ttl local_addrs =
    ground (arith, contains-eq-false_iff local_addrs src)
check_forwarding_rules_iff src (v6 ip) ttl local_addrs =
    ground (arith, contains-eq-false_iff local_addrs src)
