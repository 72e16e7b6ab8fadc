-- ===== src/V6/Naming.antt =====
-- The interface that `InterfaceIdExtractStage` of dhcp/v6/pipeline.rs takes from a message.
use dhcp_relay_agent.Common.{
  true, false, Option, none, some, List, [], ◌∷◌, Bytes, ◌≡◌, Bool-cases, inl, inr,
}
use dhcp_relay_agent.Common.Utf8.{from_utf8, utf8_from, start}
use dhcp_relay_agent.V6.Dhcproto.{
  DhcprotoV6, DhcpOption, UnknownOption, interface_id, unknown, rest,
}
use dhcp_relay_agent.V6.Options.InterfaceId
use dhcp_relay_agent.V6.Stages.{first_name}

-- The name in the first Interface-ID that is UTF-8.
pub data IsFirstName {OptionCode Rest : Type 0}
    : List (DhcpOption OptionCode Rest) → Option Bytes → Type 0 where
  no_name : IsFirstName [] none
  is_name :
      {os : List (DhcpOption OptionCode Rest)} (bytes : Bytes)
      → utf8_from (some start) bytes ≡ true
      → IsFirstName (interface_id bytes ∷ os) (some bytes)
  not_utf8 :
      {os : List (DhcpOption OptionCode Rest)} {name : Option Bytes} (bytes : Bytes)
      → utf8_from (some start) bytes ≡ false
      → IsFirstName os name
      → IsFirstName (interface_id bytes ∷ os) name
  skip_unknown :
      {os : List (DhcpOption OptionCode Rest)} {name : Option Bytes} (u : UnknownOption OptionCode)
      → IsFirstName os name
      → IsFirstName (unknown u ∷ os) name
  skip_rest :
      {os : List (DhcpOption OptionCode Rest)} {name : Option Bytes} (r : Rest)
      → IsFirstName os name
      → IsFirstName (rest r ∷ os) name

first_name-interface_id :
    (d : DhcprotoV6) (bytes : Bytes) (os : List (DhcpOption d.OptionCode d.Rest))
    → IsFirstName os (first_name d os)
    → IsFirstName (interface_id bytes ∷ os) (first_name d (interface_id bytes ∷ os))
unfolding first_name InterfaceId.decode from_utf8
first_name-interface_id d bytes os h = elim (Bool-cases (utf8_from (some start) bytes)) [
  | inl y ↦ rw (y, first_name) (is_name bytes y)
  | inr n ↦ rw (n, first_name) (not_utf8 bytes n h)
]

pub first_name-IsFirstName :
    (d : DhcprotoV6) (os : List (DhcpOption d.OptionCode d.Rest)) → IsFirstName os (first_name d os)
unfolding first_name InterfaceId.decode
first_name-IsFirstName d [] = no_name
first_name-IsFirstName d (interface_id bytes ∷ os) =
    first_name-interface_id d bytes os (first_name-IsFirstName d os)
first_name-IsFirstName d (unknown u ∷ os) = skip_unknown u (first_name-IsFirstName d os)
first_name-IsFirstName d (rest r ∷ os) = skip_rest r (first_name-IsFirstName d os)
