-- ===== src/V6/Dhcproto.antt =====
-- What dhcp/v6/ uses of the dhcproto crate: its DHCPv6 messages and their options, and the codec, as
-- a record of operations, and the documented behaviour that proofs rely on.
use dhcp_relay_agent.Common.{ℕ, Bool, true, List, [], ◌∷◌, Bytes, ◌≡◌, ◌↔◌, ◌<◌, ◌^◌, Result, ok}
use dhcp_relay_agent.Error.{Text}

-- `v6::MessageType`: the variants that the code names, and all others.
pub data MessageType : Type 0 where
  solicit request confirm renew rebind decline release information_request : MessageType
  other : ℕ → MessageType

-- `v6::UnknownOption`
pub record UnknownOption (OptionCode : Type 0) : Type 0 where
  pub code : OptionCode
  pub data_bytes : Bytes

-- `v6::DhcpOption`: the variants that the code names, and all others.
pub data DhcpOption (OptionCode Rest : Type 0) : Type 0 where
  interface_id : Bytes → DhcpOption OptionCode Rest
  unknown : UnknownOption OptionCode → DhcpOption OptionCode Rest
  rest : Rest → DhcpOption OptionCode Rest

pub record DhcprotoV6 : Type 1 where
  pub Message : Type 0
  pub OptionCode : Type 0
  pub Rest : Type 0
  -- `Message::decode` and `encode`, with the texts of their errors
  pub decode : Bytes → Result Text Message
  pub encode : Message → Result Text Bytes
  pub msg_type : Message → MessageType
  -- `opts().iter()` and `opts_mut().insert`
  pub iter : Message → List (DhcpOption OptionCode Rest)
  pub insert_opt : DhcpOption OptionCode Rest → Message → Message
  -- `OptionCode::RemoteId`, `OptionCode::Unknown`, `u16::from` and `==`
  pub remote_id_code : OptionCode
  pub unknown_code : ℕ → OptionCode
  pub code_to_u16 : OptionCode → ℕ
  pub is_code : OptionCode → OptionCode → Bool
  -- the code and the data of an option that the source does not name
  pub rest_code : Rest → ℕ
  pub rest_bytes : Rest → Bytes

-- An option's code and data, as they are on the wire.
abbrev pub on_wire : (d : DhcprotoV6) → DhcpOption d.OptionCode d.Rest → ℕ × Bytes
on_wire d (interface_id bytes) = (18, bytes)
on_wire d (unknown u) = (d.code_to_u16 u.code, u.data_bytes)
on_wire d (rest o) = (d.rest_code o, d.rest_bytes o)

abbrev pub all_on_wire : (d : DhcprotoV6) → List (DhcpOption d.OptionCode d.Rest) → List (ℕ × Bytes)
all_on_wire d [] = []
all_on_wire d (o ∷ os) = on_wire d o ∷ all_on_wire d os

-- The second list is the first with an element put in somewhere.
pub data Inserted {A : Type 0} (a : A) : List A → List A → Type 0 where
  here : {xs : List A} → Inserted a xs (a ∷ xs)
  there : {x : A} {xs ys : List A} → Inserted a xs ys → Inserted a (x ∷ xs) (x ∷ ys)

-- A message that is encoded is decoded with its type and with the same options on the wire, an
-- option is put in somewhere between the others, and `Unknown` keeps the code it is given.
pub record IsDhcprotoV6 (d : DhcprotoV6) : Type 0 where
  pub decode-encode :
      (m : d.Message) (b : Bytes)
      → d.encode m ≡ ok b
      → (m' : d.Message) × (d.decode b ≡ ok m')
        × (d.msg_type m' ≡ d.msg_type m)
        × (all_on_wire d (d.iter m') ≡ all_on_wire d (d.iter m))
  pub msg_type-insert_opt :
      (o : DhcpOption d.OptionCode d.Rest) (m : d.Message)
      → d.msg_type (d.insert_opt o m) ≡ d.msg_type m
  pub iter-insert_opt :
      (o : DhcpOption d.OptionCode d.Rest) (m : d.Message)
      → Inserted
          (on_wire d o)
          (all_on_wire d (d.iter m))
          (all_on_wire d (d.iter (d.insert_opt o m)))
  pub code_to_u16-unknown_code : (n : ℕ) → n < 2 ^ 16 → d.code_to_u16 (d.unknown_code n) ≡ n
  pub code_to_u16-remote_id : d.code_to_u16 d.remote_id_code ≡ 37
  pub is_code_iff : (a b : d.OptionCode) → (d.is_code a b ≡ true) ↔ (a ≡ b)
