-- ===== src/Tests/CodecV4.antt =====
-- A codec of DHCPv4 messages for tests: addresses, a message type and an option 82 with the two
-- identifiers.
use dhcp_relay_agent.Common.{
  ℕ, zero, suc, Option, none, some, List, [], ◌∷◌, ◌++◌, Bytes, Result, ok, err, ◌≡◌, refl, arith,
  length, take, drop, take-append_self, drop-append_self, inl, ◌==◌, nat_eq,
}
use dhcp_relay_agent.Net.{Ipv4Addr, ipv4}
use dhcp_relay_agent.Error.{Text}
use dhcp_relay_agent.V4.Dhcproto.{
  MessageType, discover, other, RelayInfo, agent_circuit_id, agent_remote_id, Dhcproto, IsDhcproto,
}
use dhcp_relay_agent.V4.Holding.{Encodes}

pub record Info : Type 0 where
  pub circuit : Option Bytes
  pub remote : Option Bytes

pub record Msg : Type 0 where
  pub giaddr : Ipv4Addr
  pub ciaddr : Ipv4Addr
  pub kind : ℕ
  pub opt82 : Option Info

abbrev enc_bytes : Option Bytes → Bytes → Bytes
enc_bytes none rest = 0 ∷ rest
enc_bytes (some b) rest = suc (length b) ∷ (b ++ rest)

abbrev dec_bytes : Bytes → Option Bytes × Bytes
dec_bytes [] = (none, [])
dec_bytes (zero ∷ rest) = (none, rest)
dec_bytes (suc n ∷ rest) = (some (take n rest), drop n rest)

dec_bytes-enc_bytes : (o : Option Bytes) (rest : Bytes) → dec_bytes (enc_bytes o rest) ≡ (o, rest)
dec_bytes-enc_bytes none rest = refl
dec_bytes-enc_bytes (some b) rest = ground (arith, take-append_self b rest, drop-append_self b rest)

abbrev enc_info : Option Info → Bytes
enc_info none = 0 ∷ []
enc_info (some i) = 1 ∷ enc_bytes i.circuit (enc_bytes i.remote [])

abbrev dec_info : Bytes → Option Info
dec_info (suc _ ∷ rest) =
    let c = dec_bytes rest in let r = dec_bytes c.1 in some (record { circuit = c.0; remote = r.0 })
dec_info _ = none

dec_info-enc_info : (o : Option Info) → dec_info (enc_info o) ≡ o
dec_info-enc_info none = refl
dec_info-enc_info (some i) =
    ground (
      arith,
      dec_bytes-enc_bytes i.circuit (enc_bytes i.remote []),
      dec_bytes-enc_bytes i.remote [],
    )

abbrev encode : Msg → Result Text Bytes
encode m = ok (
    m.giaddr.a
    ∷ m.giaddr.b
    ∷ m.giaddr.c
    ∷ m.giaddr.d
    ∷ m.ciaddr.a
    ∷ m.ciaddr.b
    ∷ m.ciaddr.c
    ∷ m.ciaddr.d
    ∷ m.kind
    ∷ enc_info m.opt82)

abbrev decode : Bytes → Result Text Msg
decode (a ∷ b ∷ c ∷ d ∷ e ∷ f ∷ g ∷ h ∷ kind ∷ rest) =
    ok (record { giaddr = ipv4 a b c d; ciaddr = ipv4 e f g h; kind = kind; opt82 = dec_info rest })
decode _ = err []

abbrev msg_type : ℕ → Option MessageType
msg_type zero = none
msg_type (suc zero) = some discover
msg_type n = some (other n)

abbrev put : RelayInfo Unit ℕ → Info → Info
put (agent_circuit_id b) i = record i { circuit = some b }
put (agent_remote_id b) i = record i { remote = some b }
put _ i = i

abbrev entry : ℕ → RelayInfo Unit ℕ → List (ℕ × RelayInfo Unit ℕ)
entry n x = (n, x) ∷ []

abbrev entries : Info → List (ℕ × RelayInfo Unit ℕ)
entries i =
    elim i.circuit [ none ↦ [] | some b ↦ entry 1 (agent_circuit_id b) ]
    ++ elim i.remote [ none ↦ [] | some b ↦ entry 2 (agent_remote_id b) ]

abbrev pub codec : Dhcproto
codec = record {
  Message = Msg;
  DhcpOption = Info;
  AgentInfo = Info;
  Flags = Unit;
  RelayCode = ℕ;
  decode = decode;
  encode = encode;
  giaddr = λ m. m.giaddr;
  ciaddr = λ m. m.ciaddr;
  set_giaddr = λ a m. record m { giaddr = a };
  msg_type = λ m. msg_type m.kind;
  get_opt82 = λ m. m.opt82;
  insert_opt = λ o m. record m { opt82 = some o };
  remove_opt82 = λ m. record m { opt82 = none };
  agent_option = λ i. i;
  as_agent_option = λ o. some o;
  no_info = record { circuit = none; remote = none };
  insert_info = put;
  iter = entries;
  virtual_subnet = 151;
  virtual_subnet_control = 152;
  code_to_u8 = λ n. n;
  is_code = λ a b. a == b;
}

codec_law : (m : Msg) (b : Bytes) → encode m ≡ ok b → decode b ≡ ok m
codec_law m b e = ground (arith, e, dec_info-enc_info m.opt82)

pub codec-IsDhcproto : IsDhcproto codec
codec-IsDhcproto = record {
  decode-encode = codec_law;
  giaddr-set_giaddr = λ a m. refl;
  ciaddr-set_giaddr = λ a m. refl;
  get_opt82-set_giaddr = λ a m. refl;
  giaddr-insert_opt = λ i m. refl;
  get_opt82-insert_opt = λ i m. refl;
  as_agent_option-agent_option = λ i. refl;
  get_opt82-remove_opt82 = λ m. refl;
  ciaddr-remove_opt82 = λ m. refl;
  giaddr-remove_opt82 = λ m. refl;
  infos-no_info = refl;
  infos-circuit = λ c. refl;
  infos-remote = λ r. refl;
  infos-both = λ c r. inl refl;
}

pub codec-Encodes : Encodes codec
codec-Encodes m = (_, refl)
