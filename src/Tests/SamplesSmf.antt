-- ===== src/Tests/SamplesSmf.antt =====
-- The values that the tests of the multicast engine are about.
use dhcp_relay_agent.Common.{Bytes, List, [], arith, false, refl, some, ◌∷◌}
use dhcp_relay_agent.Net.{IpAddr, ipv4, v4}
use dhcp_relay_agent.Smf.Dpd.{DpdCache, DpdEntry, DpdKey}
use dhcp_relay_agent.Smf.Dpd.History.{Event, evict, packet}
use dhcp_relay_agent.Smf.DpdOption.{SmfDpdOption}
use dhcp_relay_agent.Smf.DpdOption.RoundTrip.{IsWellFormed}
use dhcp_relay_agent.Smf.Engine.{SmfEngine}
use dhcp_relay_agent.Smf.Forwarding.{classic_flooding}
use dhcp_relay_agent.Tests.Samples.{client_ip, relay_ip}

abbrev pub key : DpdKey
key = record { src_addr = v4 client_ip; dst_addr = v4 (ipv4 239 1 2 3); packet_id = 77 }

abbrev pub cache : DpdCache
cache = record { map = (key, record { first_seen = 5; ttl = 3 }) ∷ []; window = 10 }

abbrev pub empty_cache : DpdCache
empty_cache = record { map = []; window = 10 }

abbrev pub history : List Event
history = packet key 6 4 ∷ evict 7 ∷ []

abbrev pub source : IpAddr
source = v4 client_ip

abbrev pub group : IpAddr
group = v4 (ipv4 239 1 2 3)

abbrev pub engine_addrs : List IpAddr
engine_addrs = v4 relay_ip ∷ []

abbrev pub engine : SmfEngine
engine = record {
  dpd_cache = empty_cache;
  relay_selector = classic_flooding;
  local_addrs = engine_addrs;
}

abbrev pub packet_bytes : Bytes
packet_bytes = 69 ∷ 0 ∷ 0 ∷ 20 ∷ 0 ∷ 1 ∷ 0 ∷ 0 ∷ 5 ∷ 17 ∷ []

abbrev pub option : SmfDpdOption
option = record {
  h_bit = false;
  tid_type = 1;
  tid_len = 1;
  tagger_id = some (7 ∷ []);
  identifier = 1 ∷ 2 ∷ [];
}

pub option-IsWellFormed : IsWellFormed option
option-IsWellFormed = record {
  narrow_type = omega arith;
  narrow_len = omega arith;
  tagger = (omega arith, refl);
  identified = λ e. absurd (ground (arith, e));
}

abbrev pub option_wire : Bytes
option_wire = 33 ∷ 7 ∷ 1 ∷ 2 ∷ []

abbrev pub identifier : Bytes
identifier = 1 ∷ 2 ∷ []

abbrev pub ticked : List Event
ticked = evict 0 ∷ packet key 5 4 ∷ []

abbrev pub key_entry : DpdEntry
key_entry = record { first_seen = 5; ttl = 4 }
