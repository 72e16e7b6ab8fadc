-- ===== src/V4/Giaddr/Decision.antt =====
-- The decision of dhcp/v4/giaddr.rs as a predicate on the message (RFC 3046, section 2.1.1).
use dhcp_relay_agent.Common.{
  Bool, true, false, none, List, [], ◌∷◌, All, ◌≡◌, ◌≢◌, ◌↔◌, arith, contains,
}
use dhcp_relay_agent.Net.{Ipv4Addr, ipv4_eq, ipv4_beq_iff, unspecified4}
use dhcp_relay_agent.V4.Dhcproto.{Dhcproto}
use dhcp_relay_agent.V4.Giaddr.{
  GiaddrDecision, first_relay, trusted_circuit, untrusted_circuit, spoof, reforwarded, validate,
}

-- The address is none of the local ones.
abbrev pub IsForeign : Ipv4Addr → List Ipv4Addr → Type 0
IsForeign a local_addrs = All (λ x. x ≢ a) local_addrs

contains-eq-false_iff :
    (addrs : List Ipv4Addr) (a : Ipv4Addr) → (contains addrs a ≡ false) ↔ IsForeign a addrs
contains-eq-false_iff [] a = ground arith
contains-eq-false_iff (x ∷ xs) a = ground (arith, ipv4_beq_iff x a, contains-eq-false_iff xs a)

module _ (d : Dhcproto) (msg : d.Message) (local_addrs : List Ipv4Addr) (trusted : Bool) where
  abbrev pub Decides : GiaddrDecision → Type 0
  Decides first_relay = (d.giaddr msg ≡ unspecified4) × (d.get_opt82 msg ≡ none)
  Decides trusted_circuit =
      (d.giaddr msg ≡ unspecified4) × (d.get_opt82 msg ≢ none) × (trusted ≡ true)
  Decides untrusted_circuit =
      (d.giaddr msg ≡ unspecified4) × (d.get_opt82 msg ≢ none) × (trusted ≡ false)
  Decides spoof = (d.giaddr msg ≢ unspecified4) × (¬ IsForeign (d.giaddr msg) local_addrs)
  Decides reforwarded = (d.giaddr msg ≢ unspecified4) × IsForeign (d.giaddr msg) local_addrs

  -- A message without a relay address is the first relay's, unless it carries option 82 already:
  -- then the circuit decides whether it is trusted. One with a relay address is a spoof exactly if
  -- the address is local, and reforwarded otherwise.
  pub validate_iff :
      (decision : GiaddrDecision)
      → (validate d msg local_addrs trusted ≡ decision) ↔ Decides decision
  unfolding validate
  validate_iff first_relay = ground (
    arith,
    ipv4_beq_iff (d.giaddr msg) unspecified4,
    contains-eq-false_iff local_addrs (d.giaddr msg),
  )
  validate_iff _ = ground (
    arith,
    ipv4_beq_iff (d.giaddr msg) unspecified4,
    contains-eq-false_iff local_addrs (d.giaddr msg),
  )
