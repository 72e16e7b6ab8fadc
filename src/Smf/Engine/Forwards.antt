-- ===== src/Smf/Engine/Forwards.antt =====
-- What `process_packet` of smf/engine.rs forwards, and how it changes the packet.
use dhcp_relay_agent.Common.{
  ℕ, ◌-◌, ◌*◌, ◌<◌, ◌≡◌, ◌≢◌, ◌⊎◌, refl, sym, subst, ◌/◌, true, none, some, List, Bytes, arith, ok,
  ltb, if◌then◌else◌, length, get_elem?, length-set, get_elem?-set_self, get_elem?-set_ne, inl, inr,
  Bool-cases,
}
use dhcp_relay_agent.Net.{IpAddr, v4, v6}
use dhcp_relay_agent.Config.{SmfConfig}
use dhcp_relay_agent.Smf.Forwarding.{check_forwarding_rules}
use dhcp_relay_agent.Smf.Forwarding.Rules.{IsForwardable, check_forwarding_rules_iff}
use dhcp_relay_agent.Smf.Dpd.{DpdCache, second}
use dhcp_relay_agent.Smf.Engine.{
  SmfEngine, new, start_eviction, ttl_offset, decrement_ttl, process_packet,
}

-- Where the TTL stands: in the ninth byte of an IPv4 header, as the hop limit in the eighth of an
-- IPv6 one.
abbrev pub ttl_place : IpAddr → ℕ
ttl_place (v4 _) = 8
ttl_place (v6 _) = 7

-- The packet that is forwarded has the length of the one received and differs from it at most in
-- the byte at this place, which holds the given TTL less one if the packet reaches that far.
pub record IsDecremented (packet : Bytes) (place ttl : ℕ) (out : Bytes) : Type 0 where
  pub same_length : length out ≡ length packet
  pub ttl_byte : place < length packet → get_elem? out place ≡ some (ttl - 1)
  pub others : (i : ℕ) → i ≢ place → get_elem? out i ≡ get_elem? packet i

decrement_ttl-place : (dst : IpAddr) → ttl_offset dst ≡ ttl_place dst
decrement_ttl-place (v4 _) = refl
decrement_ttl-place (v6 _) = refl

decrement_ttl-IsDecremented :
    (packet : Bytes) (dst : IpAddr) (ttl : ℕ)
    → IsDecremented packet (ttl_place dst) ttl (decrement_ttl packet dst ttl)
unfolding decrement_ttl
decrement_ttl-IsDecremented packet dst ttl =
    subst (λ place. IsDecremented packet place ttl (decrement_ttl packet dst ttl))
      (decrement_ttl-place dst)
      (record {
        same_length = ground (arith, length-set packet (ttl_offset dst) (ttl - 1));
        ttl_byte = λ h. ground (arith, get_elem?-set_self packet (ttl_offset dst) (ttl - 1) h);
        others = λ i h.
            ground (arith, get_elem?-set_ne packet (ttl_offset dst) i (ttl - 1) (λ p. h (sym p)));
      })

-- The packet passes the forwarding rules and the relay set selector.
abbrev pub Passes : SmfEngine → IpAddr → IpAddr → ℕ → Bytes → IpAddr → Type 0
Passes e src dst ttl iface hop =
    IsForwardable src dst ttl e.local_addrs
    × (e.relay_selector.should_forward iface hop src dst ≡ true)

-- Either a packet satisfies the forwarding rules and the relay set selector lets it pass: then it
-- is forwarded with its length, its TTL byte (the ninth of an IPv4 packet, the eighth of an IPv6
-- one), if the packet reaches that far, set to the given TTL less one, and every other byte as it
-- was. Or it does not: then it is dropped without an error.
pub process_packet_lem :
    (e : SmfEngine) (packet : Bytes) (src dst : IpAddr) (ttl : ℕ) (iface : Bytes) (hop : IpAddr)
    → (Passes e src dst ttl iface hop
        × ((out : Bytes) × (process_packet e packet src dst ttl iface hop ≡ ok (some out))
            × IsDecremented packet (ttl_place dst) ttl out))
      ⊎ ((¬ Passes e src dst ttl iface hop)
          × (process_packet e packet src dst ttl iface hop ≡ ok none))
unfolding process_packet
process_packet_lem e packet src dst ttl iface hop =
    let (to, from) = check_forwarding_rules_iff src dst ttl e.local_addrs in
    elim (Bool-cases (check_forwarding_rules src dst ttl e.local_addrs)) [
      | inl pass ↦ elim (Bool-cases (e.relay_selector.should_forward iface hop src dst)) [
        | inl chosen ↦
            let out = decrement_ttl packet dst ttl in
            inl ((to pass, chosen), (out, ground arith, decrement_ttl-IsDecremented packet dst ttl))
        | inr other ↦ inr (λ h. cc (h.1), ground arith)
      ]
      | inr stop ↦ inr (λ h. cc (from h.0), ground arith)
    ]

-- Whatever the duplicate cache holds, the engine treats a packet in the same way.
pub process_packet_ignores_cache :
    (e : SmfEngine) (c : DpdCache) (packet : Bytes) (src dst : IpAddr) (ttl : ℕ) (iface : Bytes)
    (hop : IpAddr)
    → process_packet (record e { dpd_cache = c }) packet src dst ttl iface hop
      ≡ process_packet e packet src dst ttl iface hop
unfolding process_packet
process_packet_ignores_cache e c packet src dst ttl iface hop = refl

-- A new engine's eviction task has an interval exactly if the configured window has at least four
-- seconds, and then the interval is a quarter of it.
pub start_eviction-new :
    (config : SmfConfig) (addrs : List IpAddr)
    → start_eviction (new config addrs) ≡ (
        if ltb config.dpd_window_secs 4 then none else some (config.dpd_window_secs * (second / 4)))
unfolding start_eviction new
start_eviction-new config addrs = ground arith
