-- ===== src/Error.antt =====
-- error.rs: the errors of the relay. A formatted text is the list of its pieces, so that the
-- format and the values put into it stay apart.
use Prim.Native.String.{String}
use dhcp_relay_agent.Common.{ℕ, List, Result}
use dhcp_relay_agent.Net.{Ipv4Addr}

pub data Piece : Type 0 where
  text : String → Piece
  number : ℕ → Piece
  address : Ipv4Addr → Piece

abbrev pub Text : Type 0
Text = List Piece

pub data RelayError : Type 0 where
  io : Text → RelayError
  parse : Text → RelayError
  packet_too_large : (size limit : ℕ) → RelayError
  giaddr_spoof : Text → RelayError
  option82_mismatch : RelayError
  vss_not_supported : RelayError
  vpn_not_configured : Text → RelayError
  dpd_stale_packet : RelayError
  config : Text → RelayError
  transport : Text → RelayError

abbrev pub RelayResult : Type 0 → Type 0
RelayResult A = Result RelayError A
