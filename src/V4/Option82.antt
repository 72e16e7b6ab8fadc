-- ===== src/V4/Option82.antt =====
-- dhcp/v4/option82.rs: the Relay Agent Information option (RFC 3046).
pub mod Echo
pub mod InsertStrip
use dhcp_relay_agent.Common.{
  ℕ, ◌/◌, ◌%◌, ◌^◌, Bool, true, false, ◌&&◌, not, Option, none, some, List, [], ◌∷◌, map, Bytes,
  Result, ok, err, ◌>>=◌, Eq, ◌==◌, nat_eq, list_eq, if◌then◌else◌, length,
}
use mathlib.Core.List.{zip}
use dhcp_relay_agent.Net.{octets4}
use dhcp_relay_agent.Error.{text, RelayError, RelayResult}
use dhcp_relay_agent.V4.Dhcproto.{
  Dhcproto, RelayInfo, agent_circuit_id, agent_remote_id, docsis_device_class, link_selection,
  subscriber_id, relay_agent_flags, server_identifier_override, unknown,
}

pub record SubOption : Type 0 where
  pub code : ℕ
  pub bytes : Bytes

abbrev pub sub_option : ℕ → Bytes → SubOption
sub_option code bytes = record { code = code; bytes = bytes }

-- `u32::to_be_bytes`
abbrev pub to_be32 : ℕ → Bytes
to_be32 n = n / 2 ^ 24 ∷ (n / 2 ^ 16 % 256) ∷ (n / 2 ^ 8 % 256) ∷ (n % 256) ∷ []

abbrev pub no_sub_option : RelayError
no_sub_option =
    RelayError.config
      (text "Option 82 requires at least one sub-option (circuit_id or remote_id)" ∷ [])

abbrev pub already_present : RelayError
already_present =
    RelayError.config
      (text "Option 82 already present — reforwarded packets must not be modified" ∷ [])

abbrev is_none : Option Bytes → Bool
is_none none = true
is_none (some _) = false

-- The loop of `validate_echo`, `zip` and `all`.
abbrev pub all_equal : List SubOption → List SubOption → Bool
all_equal (r ∷ rs) (s ∷ ss) = (r.code == s.code && r.bytes == s.bytes) && all_equal rs ss
all_equal _ _ = true

unfoldable pub validate_echo : List SubOption → List SubOption → Bool
validate_echo received sent =
    if not (length received == length sent) then false else all_equal received sent

module _ (d : Dhcproto) where
  unfoldable pub relay_info_to_sub_opt : RelayInfo d.Flags d.RelayCode → SubOption
  relay_info_to_sub_opt (agent_circuit_id bytes) = sub_option 1 bytes
  relay_info_to_sub_opt (agent_remote_id bytes) = sub_option 2 bytes
  relay_info_to_sub_opt (docsis_device_class n) = sub_option 4 (to_be32 n)
  relay_info_to_sub_opt (link_selection addr) = sub_option 5 (octets4 addr)
  relay_info_to_sub_opt (subscriber_id bytes) = sub_option 6 bytes
  relay_info_to_sub_opt (relay_agent_flags _) = sub_option 10 (0 ∷ [])
  relay_info_to_sub_opt (server_identifier_override addr) = sub_option 11 (octets4 addr)
  relay_info_to_sub_opt (unknown unk) = sub_option (d.code_to_u8 unk.code) unk.bytes

  -- `info.iter().map(|(_, ri)| relay_info_to_sub_opt(ri)).collect()`
  unfoldable pub sub_opts : d.AgentInfo → List SubOption
  unfolding relay_info_to_sub_opt
  sub_opts info = map relay_info_to_sub_opt (map (λ p. p.1) (d.iter info))

  -- `opts().contains(OptionCode::RelayAgentInformation)`
  abbrev pub has_opt82 : d.Message → Bool
  has_opt82 msg = elim (d.get_opt82 msg) [ none ↦ false | some _ ↦ true ]

  -- `if let Some(DhcpOption::RelayAgentInformation(info)) = opts().get(…)`
  abbrev pub agent_info : d.Message → Option d.AgentInfo
  agent_info msg = elim (d.get_opt82 msg) [ none ↦ none | some opt ↦ d.as_agent_option opt ]

  abbrev pub with_circuit : Option Bytes → d.AgentInfo → d.AgentInfo
  with_circuit none info = info
  with_circuit (some id) info = d.insert_info (agent_circuit_id id) info

  abbrev pub with_remote : Option Bytes → d.AgentInfo → d.AgentInfo
  with_remote none info = info
  with_remote (some id) info = d.insert_info (agent_remote_id id) info

  unfoldable pub insert : Option Bytes → Option Bytes → d.Message → RelayResult d.Message
  insert circuit_id remote_id msg =
      if is_none circuit_id && is_none remote_id
      then err no_sub_option
      else if has_opt82 msg
      then err already_present
      else ok (
          d.insert_opt (d.agent_option (with_remote remote_id (with_circuit circuit_id d.no_info)))
            msg)

  -- The removed option is taken out first, and then read.
  unfoldable pub strip : d.Message → Option (List SubOption) × d.Message
  unfolding sub_opts
  strip msg = elim (d.get_opt82 msg) [
    | none ↦ (none, msg)
    | some removed ↦ (
      elim (d.as_agent_option removed) [ some info ↦ some (sub_opts info) | none ↦ none ],
      d.remove_opt82 msg,
    )
  ]
