-- ===== src/Tests/CodecV6.antt =====
-- A codec of DHCPv6 messages for tests: a message type, and options with a code and a length.
use dhcp_relay_agent.Common.{
  ℕ, zero, suc, ◌≤◌, List, [], ◌∷◌, ◌++◌, Bytes, Result, ok, err, ◌≡◌, refl, arith, sym, ◌∙◌,
  length, take, drop, take-append_self, drop-append_self, length-append, ◌==◌, nat_eq, nat_beq_iff,
  if◌then◌else◌,
}
use dhcp_relay_agent.Error.{Text}
use dhcp_relay_agent.V6.Dhcproto.{
  MessageType, solicit, other, DhcpOption, interface_id, unknown, rest, DhcprotoV6, IsDhcprotoV6,
  all_on_wire, here,
}
use dhcp_relay_agent.V6.Extending.{EncodesV6}

pub record Msg : Type 0 where
  pub kind : ℕ
  pub opts : List (DhcpOption ℕ Unit)

abbrev plain : DhcpOption ℕ Unit → ℕ × Bytes
plain (interface_id b) = (18, b)
plain (unknown u) = (u.code, u.data_bytes)
plain (rest _) = (0, [])

abbrev plains : List (DhcpOption ℕ Unit) → List (ℕ × Bytes)
plains [] = []
plains (o ∷ os) = plain o ∷ plains os

abbrev enc : List (ℕ × Bytes) → Bytes
enc [] = []
enc ((code, b) ∷ os) = code ∷ length b ∷ (b ++ enc os)

abbrev option_of : ℕ → Bytes → DhcpOption ℕ Unit
option_of code b =
    if code == 18 then interface_id b else unknown (record { code = code; data_bytes = b })

unfoldable pub dec : ℕ → Bytes → List (DhcpOption ℕ Unit)
dec zero b = []
dec (suc n) (code ∷ len ∷ b) = option_of code (take len b) ∷ dec n (drop len b)
dec (suc n) _ = []

plain-option_of : (code : ℕ) (b : Bytes) → plain (option_of code b) ≡ (code, b)
plain-option_of code b = ground (arith, nat_beq_iff code 18)

plains-dec-enc : (n : ℕ) (os : List (ℕ × Bytes)) → length os ≤ n → plains (dec n (enc os)) ≡ os
unfolding dec
plains-dec-enc zero [] h = refl
plains-dec-enc zero (o ∷ os) h = absurd (omega arith)
plains-dec-enc (suc n) [] h = refl
plains-dec-enc (suc n) ((code, b) ∷ os) h = ground (
  arith,
  take-append_self b (enc os),
  drop-append_self b (enc os),
  plain-option_of code b,
  plains-dec-enc n os (omega arith),
)

length-enc : (os : List (ℕ × Bytes)) → length os ≤ length (enc os)
length-enc [] = omega arith
length-enc ((code, b) ∷ os) = omega (arith, length-append b (enc os), length-enc os)

abbrev encode : Msg → Result Text Bytes
encode m = ok (m.kind ∷ enc (plains m.opts))

unfoldable pub decode : Bytes → Result Text Msg
unfolding dec
decode [] = err []
decode (kind ∷ b) = ok (record { kind = kind; opts = dec (length b) b })

abbrev msg_type : ℕ → MessageType
msg_type (suc zero) = solicit
msg_type n = other n

abbrev pub codec : DhcprotoV6
codec = record {
  Message = Msg;
  OptionCode = ℕ;
  Rest = Unit;
  decode = decode;
  encode = encode;
  msg_type = λ m. msg_type m.kind;
  iter = λ m. m.opts;
  insert_opt = λ o m. record m { opts = o ∷ m.opts };
  remote_id_code = 37;
  unknown_code = λ n. n;
  code_to_u16 = λ n. n;
  is_code = λ a b. a == b;
  rest_code = λ _. 0;
  rest_bytes = λ _. [];
}

all_on_wire-plains : (os : List (DhcpOption ℕ Unit)) → all_on_wire codec os ≡ plains os
all_on_wire-plains [] = refl
all_on_wire-plains (interface_id b ∷ os) = rw (all_on_wire-plains os)
all_on_wire-plains (unknown u ∷ os) = rw (all_on_wire-plains os)
all_on_wire-plains (rest o ∷ os) = rw (all_on_wire-plains os)

codec_law :
    (m : Msg) (b : Bytes)
    → encode m ≡ ok b
    → (m' : Msg) × (decode b ≡ ok m')
      × (msg_type m'.kind ≡ msg_type m.kind)
      × (all_on_wire codec m'.opts ≡ all_on_wire codec m.opts)
unfolding decode
codec_law m b e =
    let body = enc (plains m.opts) in
    let os = dec (length body) body in
    (
      record { kind = m.kind; opts = os },
      ground (arith, e),
      refl,
      all_on_wire-plains os
          ∙ plains-dec-enc (length body) (plains m.opts) (length-enc (plains m.opts))
          ∙ sym (all_on_wire-plains m.opts),
    )

pub codec-IsDhcprotoV6 : IsDhcprotoV6 codec
codec-IsDhcprotoV6 = record {
  decode-encode = codec_law;
  msg_type-insert_opt = λ o m. refl;
  iter-insert_opt = λ o m. here;
  code_to_u16-unknown_code = λ n h. refl;
  code_to_u16-remote_id = refl;
  is_code_iff = nat_beq_iff;
}

pub codec-Encodes : EncodesV6 codec
codec-Encodes m = (_, refl)
