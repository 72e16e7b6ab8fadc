-- ===== src/V4/Dhcproto.antt =====
-- What dhcp/v4/ uses of the dhcproto crate: its messages, the Relay Agent Information option and
-- the codec, as a record of operations, and the documented behaviour that proofs rely on.
use dhcp_relay_agent.Common.{
  ℕ, Bool, Option, none, some, List, [], ◌∷◌, Bytes, ◌≡◌, ◌⊎◌, Result, ok, map,
}
use dhcp_relay_agent.Net.{Ipv4Addr}
use dhcp_relay_agent.Error.{Text}

-- `v4::MessageType`: the variants that the code names, and all others.
pub data MessageType : Type 0 where
  discover request inform decline release : MessageType
  other : ℕ → MessageType

pub record UnknownInfo (RelayCode : Type 0) : Type 0 where
  pub code : RelayCode
  pub bytes : Bytes

-- `v4::relay::RelayInfo`, whose variants `relay_info_to_sub_opt` lists.
pub data RelayInfo (Flags RelayCode : Type 0) : Type 0 where
  agent_circuit_id : Bytes → RelayInfo Flags RelayCode
  agent_remote_id : Bytes → RelayInfo Flags RelayCode
  docsis_device_class : ℕ → RelayInfo Flags RelayCode
  link_selection : Ipv4Addr → RelayInfo Flags RelayCode
  subscriber_id : Bytes → RelayInfo Flags RelayCode
  relay_agent_flags : Flags → RelayInfo Flags RelayCode
  server_identifier_override : Ipv4Addr → RelayInfo Flags RelayCode
  unknown : UnknownInfo RelayCode → RelayInfo Flags RelayCode

pub record Dhcproto : Type 1 where
  pub Message : Type 0
  pub DhcpOption : Type 0
  pub AgentInfo : Type 0
  pub Flags : Type 0
  pub RelayCode : Type 0
  -- `Message::decode` and `encode`, with the texts of their errors
  pub decode : Bytes → Result Text Message
  pub encode : Message → Result Text Bytes
  pub giaddr : Message → Ipv4Addr
  pub ciaddr : Message → Ipv4Addr
  pub set_giaddr : Ipv4Addr → Message → Message
  pub msg_type : Message → Option MessageType
  -- `opts().get`, `opts_mut().insert` and `opts_mut().remove`, at the code of option 82
  pub get_opt82 : Message → Option DhcpOption
  pub insert_opt : DhcpOption → Message → Message
  pub remove_opt82 : Message → Message
  -- `DhcpOption::RelayAgentInformation`, as a constructor and as a pattern
  pub agent_option : AgentInfo → DhcpOption
  pub as_agent_option : DhcpOption → Option AgentInfo
  -- `RelayAgentInformation::default`, `insert` and `iter`
  pub no_info : AgentInfo
  pub insert_info : RelayInfo Flags RelayCode → AgentInfo → AgentInfo
  pub iter : AgentInfo → List (RelayCode × RelayInfo Flags RelayCode)
  -- the codes of RFC 6607, `u8::from` and the test that a pattern makes
  pub virtual_subnet : RelayCode
  pub virtual_subnet_control : RelayCode
  pub code_to_u8 : RelayCode → ℕ
  pub is_code : RelayCode → RelayCode → Bool

-- The codec decodes what it has encoded, setting one part of a message leaves the others alone, and
-- option 82 holds the sub-options that were put into it, in one order or the other.
pub record IsDhcproto (d : Dhcproto) : Type 0 where
  pub decode-encode : (m : d.Message) (b : Bytes) → d.encode m ≡ ok b → d.decode b ≡ ok m
  pub giaddr-set_giaddr : (a : Ipv4Addr) (m : d.Message) → d.giaddr (d.set_giaddr a m) ≡ a
  pub ciaddr-set_giaddr : (a : Ipv4Addr) (m : d.Message) → d.ciaddr (d.set_giaddr a m) ≡ d.ciaddr m
  pub get_opt82-set_giaddr :
      (a : Ipv4Addr) (m : d.Message) → d.get_opt82 (d.set_giaddr a m) ≡ d.get_opt82 m
  pub giaddr-insert_opt :
      (i : d.AgentInfo) (m : d.Message) → d.giaddr (d.insert_opt (d.agent_option i) m) ≡ d.giaddr m
  pub get_opt82-insert_opt :
      (i : d.AgentInfo) (m : d.Message)
      → d.get_opt82 (d.insert_opt (d.agent_option i) m) ≡ some (d.agent_option i)
  pub as_agent_option-agent_option :
      (i : d.AgentInfo) → d.as_agent_option (d.agent_option i) ≡ some i
  pub get_opt82-remove_opt82 : (m : d.Message) → d.get_opt82 (d.remove_opt82 m) ≡ none
  pub ciaddr-remove_opt82 : (m : d.Message) → d.ciaddr (d.remove_opt82 m) ≡ d.ciaddr m
  pub giaddr-remove_opt82 : (m : d.Message) → d.giaddr (d.remove_opt82 m) ≡ d.giaddr m
  pub infos-no_info : map (λ p. p.1) (d.iter d.no_info) ≡ []
  pub infos-circuit :
      (c : Bytes)
      → map (λ p. p.1) (d.iter (d.insert_info (agent_circuit_id c) d.no_info))
        ≡ agent_circuit_id c ∷ []
  pub infos-remote :
      (r : Bytes)
      → map (λ p. p.1) (d.iter (d.insert_info (agent_remote_id r) d.no_info))
        ≡ agent_remote_id r ∷ []
  pub infos-both :
      (c r : Bytes)
      → let infos =
          map
            (λ p. p.1)
            (d.iter
              (d.insert_info (agent_remote_id r) (d.insert_info (agent_circuit_id c) d.no_info))) in
        (infos ≡ agent_circuit_id c ∷ agent_remote_id r ∷ [])
        ⊎ (infos ≡ agent_remote_id r ∷ agent_circuit_id c ∷ [])
