-- ===== src/V6/RelayFwd.antt =====
-- dhcp/v6/relay_fwd.rs: Relay-forward and Relay-reply messages on the wire. A position in a slice
-- is the rest of the slice from there, so that `options.len() - pos` is the length of the rest.
pub mod Options
pub mod Layers
use dhcp_relay_agent.Common.{
  ℕ, zero, suc, ◌+◌, ◌%◌, ◌^◌, Bool, true, false, ◌&&◌, not, Option, none, some, [], ◌∷◌, ◌++◌,
  Bytes, to_be16, from_be16, Result, ok, err, ◌>>=◌, ◌==◌, nat_eq, ltb, if◌then◌else◌, length, take,
  drop,
}
use dhcp_relay_agent.Net.{Ipv6Addr, IpAddr, v4, v6, SocketAddr, unspecified6, octets6}
use dhcp_relay_agent.Error.{text, number, RelayError, RelayResult}

abbrev pub relay_forw : ℕ
relay_forw = 12

abbrev pub relay_repl : ℕ
relay_repl = 13

abbrev pub option_relay_msg : ℕ
option_relay_msg = 9

abbrev pub relay_hdr_len : ℕ
relay_hdr_len = 34

abbrev pub peer_ip : SocketAddr → Ipv6Addr
peer_ip peer_addr = elim peer_addr.ip [ v6 ip ↦ ip | v4 _ ↦ unspecified6 ]

-- The length is cast to a u16.
unfoldable pub encapsulate : Bytes → Ipv6Addr → SocketAddr → Bytes
encapsulate client_msg link_addr peer_addr =
    relay_forw
    ∷ 0
    ∷ (octets6 link_addr
        ++ (octets6 (peer_ip peer_addr)
            ++ (to_be16 option_relay_msg ++ (to_be16 (length client_msg % 2 ^ 16) ++ client_msg))))

-- An option's code and length, and what follows them, if there are four bytes.
abbrev pub option_header : Bytes → Option (ℕ × ℕ × Bytes)
option_header (c₁ ∷ c₂ ∷ l₁ ∷ l₂ ∷ rest) = some (from_be16 c₁ c₂, from_be16 l₁ l₂, rest)
option_header _ = none

abbrev pub no_relay_msg : RelayError
no_relay_msg = RelayError.parse (text "no relay-message option (9) found in relay reply" ∷ [])

abbrev pub truncated_option : ℕ → ℕ → Bytes → RelayError
truncated_option code len rest = RelayError.parse (
    text "truncated option: code "
    ∷ number code
    ∷ text " length "
    ∷ number len
    ∷ text " exceeds remaining "
    ∷ number (length rest)
    ∷ text " bytes"
    ∷ [])

-- The loop over the options. Each round takes four bytes or more, so the number of bytes is fuel
-- enough, and without fuel there are no bytes.
unfoldable pub extract_from : ℕ → Bytes → RelayResult Bytes
extract_from zero options = err no_relay_msg
extract_from (suc fuel) options = elim (option_header options) [
  | none ↦ err no_relay_msg
  | some (code, len, rest) ↦
      let later = extract_from fuel (drop len rest) in
      if ltb (length rest) len
      then err (truncated_option code len rest)
      else if code == option_relay_msg
      then ok (take len rest)
      else later
]

unfoldable pub extract_relay_msg : Bytes → RelayResult Bytes
extract_relay_msg options = extract_from (length options) options

-- `!inner.is_empty() && inner[0] == RELAY_REPL`
abbrev pub is_relay_reply : Bytes → Bool
is_relay_reply [] = false
is_relay_reply (b ∷ _) = b == relay_repl

abbrev pub too_short : Bytes → RelayError
too_short relay_reply = RelayError.parse (
    text "relay message too short: "
    ∷ number (length relay_reply)
    ∷ text " bytes (minimum "
    ∷ number relay_hdr_len
    ∷ text ")"
    ∷ [])

-- The checks of the header, and the extraction.
unfoldable pub unwrap : Bytes → RelayResult Bytes
unwrap [] = err (too_short [])
unwrap (msg_type ∷ rest) =
    if ltb (length (msg_type ∷ rest)) relay_hdr_len
    then err (too_short (msg_type ∷ rest))
    else if not (msg_type == relay_repl)
    then err
        (RelayError.parse (text "expected RELAY_REPL (13), got msg_type " ∷ number msg_type ∷ []))
    else extract_relay_msg (drop relay_hdr_len (msg_type ∷ rest))

-- The recursion into nested replies; `none` is a lack of fuel.
unfoldable pub decapsulate_from : ℕ → Bytes → Option (RelayResult Bytes)
decapsulate_from zero relay_reply = none
decapsulate_from (suc fuel) relay_reply = elim (unwrap relay_reply) [
  | err e ↦ some (err e)
  | ok inner ↦
      let deeper = decapsulate_from fuel inner in
      if is_relay_reply inner then deeper else some (ok inner)
]

-- A nested message is shorter, so the number of bytes is fuel enough.
unfoldable pub decapsulate : Bytes → RelayResult Bytes
decapsulate relay_reply = elim (decapsulate_from (suc (length relay_reply)) relay_reply) [
  | some r ↦ r
  | none ↦ err (RelayError.parse [])
]
