-- ===== src/Smf/Identifiers.antt =====
-- `h_dpd_hash` of smf/dpd.rs, smf/dpd_ipv4.rs and smf/dpd_ipv6.rs: the keys of the cache. The hash
-- of the murmur3 crate, with seed 0, is a parameter.
pub mod Keys
use dhcp_relay_agent.Common.{
  ℕ, zero, suc, ◌+◌, ◌*◌, ◌%◌, ◌^◌, min, Bool, true, false, Option, none, some, [], ◌∷◌, ◌++◌,
  Bytes, ◌==◌, nat_eq, length, take, drop, replicate,
}
use mathlib.Core.List.{foldl}
use dhcp_relay_agent.Net.{IpAddr, octets}
use dhcp_relay_agent.Smf.Dpd.{DpdKey}
use dhcp_relay_agent.Smf.DpdOption.{SmfDpdOption}

abbrev pub key_of : IpAddr → IpAddr → ℕ → DpdKey
key_of src dst packet_id = record { src_addr = src; dst_addr = dst; packet_id = packet_id }

-- The bytes that are hashed.
unfoldable pub hash_input : IpAddr → IpAddr → Bytes → Bytes
hash_input src dst payload = octets src ++ (octets dst ++ take (min 64 (length payload)) payload)

module _ (murmur3_x64_128 : Bytes → ℕ) where
  -- `hash & 0xFFFF_FFFF_FFFF_FFFF` keeps the lower 64 bits.
  unfoldable pub h_dpd_hash : IpAddr → IpAddr → Bytes → DpdKey × ℕ
  h_dpd_hash src dst payload =
      let packet_id = murmur3_x64_128 (hash_input src dst payload) % 2 ^ 64 in
      (key_of src dst packet_id, packet_id)

  -- `h_dpd_packet_id` of dpd_ipv4.rs; that of dpd_ipv6.rs is `h_dpd_hash` itself.
  unfoldable pub h_dpd_packet_id4 : IpAddr → IpAddr → Bytes → DpdKey
  unfolding h_dpd_hash
  h_dpd_packet_id4 src dst payload = (h_dpd_hash src dst payload).0

  unfoldable pub h_dpd_packet_id6 : IpAddr → IpAddr → Bytes → DpdKey × ℕ
  unfolding h_dpd_hash
  h_dpd_packet_id6 src dst payload = h_dpd_hash src dst payload

-- `i_dpd_packet_id` of dpd_ipv4.rs
unfoldable pub i_dpd_packet_id : IpAddr → IpAddr → ℕ → DpdKey
i_dpd_packet_id src dst ip_id = key_of src dst ip_id

-- `u64::from_be_bytes`
abbrev pub from_be : Bytes → ℕ
from_be bytes = foldl (λ acc b. acc * 256 + b) 0 bytes

-- Up to 8 bytes are copied to the front of eight zeros.
unfoldable pub bytes_to_u64 : Bytes → ℕ
bytes_to_u64 bytes =
    let len = min 8 (length bytes) in from_be (take len bytes ++ drop len (replicate 8 0))

unfoldable pub i_dpd_packet_id_from_option : IpAddr → IpAddr → SmfDpdOption → DpdKey
unfolding bytes_to_u64
i_dpd_packet_id_from_option src dst dpd_opt = key_of src dst (bytes_to_u64 dpd_opt.identifier)

unfoldable pub i_dpd_packet_id_from_raw : IpAddr → IpAddr → ℕ → DpdKey
i_dpd_packet_id_from_raw src dst identifier = key_of src dst identifier

unfoldable pub has_collision : Option ℕ → ℕ → Bool
has_collision (some hav) current_hav = hav == current_hav
has_collision none current_hav = false
