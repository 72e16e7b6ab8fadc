-- ===== src/Net/Text.antt =====
-- IPv4 addresses as texts: `str::split` and `Ipv4Addr::from_str` of the standard library, as lib.rs
-- uses them.
pub mod RoundTrip
use dhcp_relay_agent.Common.{
  ℕ, zero, suc, ◌+◌, ◌*◌, ◌-◌, ◌/◌, ◌%◌, ◌<◌, Bool, true, false, ◌&&◌, ◌||◌, not, Option, none,
  some, List, [], ◌∷◌, ◌++◌, Bytes, ◌≡◌, ◌≢◌, refl, arith, leb, ltb, ◌==◌, nat_eq, if◌then◌else◌,
  length, contains,
}
use dhcp_relay_agent.Net.{Ipv4Addr, ipv4}

abbrev onto_first : ℕ → List Bytes → List Bytes
onto_first b [] = (b ∷ []) ∷ []
onto_first b (s ∷ ss) = (b ∷ s) ∷ ss

-- `text.split(sep)`, which always has a first piece.
unfoldable pub split : ℕ → Bytes → List Bytes
split sep [] = [] ∷ []
split sep (b ∷ bs) = let rest = split sep bs in if b == sep then [] ∷ rest else onto_first b rest

-- `text.split(sep).next()`
abbrev pub first_piece : List Bytes → Bytes
first_piece [] = []
first_piece (s ∷ _) = s

-- A decimal number, where every byte is a digit.
abbrev pub decimal : Bytes → Option ℕ → Option ℕ
decimal [] acc = acc
decimal (b ∷ bs) none = none
decimal (b ∷ bs) (some n) =
    decimal bs (if leb b'0' b && leb b b'9' then some (n * 10 + (b - b'0')) else none)

abbrev starts_with_zero : Bytes → Bool
starts_with_zero [] = false
starts_with_zero (b ∷ _) = b == b'0'

abbrev below_256 : Option ℕ → Option ℕ
below_256 none = none
below_256 (some n) = if ltb n 256 then some n else none

-- One to three digits, without a leading zero, and a value that fits a byte.
unfoldable pub octet : Bytes → Option ℕ
octet text =
    if length text == 0 || ltb 3 (length text)
    then none
    else if starts_with_zero text && ltb 1 (length text)
    then none
    else below_256 (decimal text (some 0))

abbrev pub from_octets : Option ℕ → Option ℕ → Option ℕ → Option ℕ → Option Ipv4Addr
from_octets (some a) (some b) (some c) (some d) = some (ipv4 a b c d)
from_octets _ _ _ _ = none

abbrev pub from_pieces : List Bytes → Option Ipv4Addr
from_pieces (a ∷ b ∷ c ∷ d ∷ []) = from_octets (octet a) (octet b) (octet c) (octet d)
from_pieces _ = none

unfoldable pub parse_ipv4 : Bytes → Option Ipv4Addr
unfolding split octet
parse_ipv4 text = from_pieces (split b'.' text)
