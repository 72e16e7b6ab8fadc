-- ===== src/Smf/DpdOption.antt =====
-- smf/dpd_option.rs: the SMF_DPD hop-by-hop option on the wire.
pub mod Flags
pub mod RoundTrip
use Prim.Native.Nat.{bit_and, bit_or}
use dhcp_relay_agent.Common.{
  ℕ, ◌+◌, ◌*◌, ◌/◌, ◌%◌, ◌^◌, Bool, true, false, Option, none, some, [], ◌∷◌, ◌++◌, Bytes, not,
  ◌==◌, nat_eq, ltb, if◌then◌else◌, length, take, drop, is_empty,
}

abbrev pub smf_dpd_option_type : ℕ
smf_dpd_option_type = 0x08

abbrev pub tid_type_null : ℕ
tid_type_null = 0

pub record SmfDpdOption : Type 0 where
  pub h_bit : Bool
  pub tid_type : ℕ
  pub tid_len : ℕ
  pub tagger_id : Option Bytes
  pub identifier : Bytes

-- `(tid_type << 5) | (tid_len & 0x1F)` on a byte, and `flags |= 0x80`
unfoldable pub encode_flags : Bool → ℕ → ℕ → ℕ
encode_flags h_bit tid_type tid_len =
    let flags = bit_or (tid_type * 32 % 256) (bit_and tid_len 0x1f) in
    if h_bit then bit_or flags 0x80 else flags

abbrev pub tagger_bytes : Option Bytes → Bytes
tagger_bytes (some tid) = tid
tagger_bytes none = []

unfoldable pub encode : SmfDpdOption → Bytes
encode o =
    let opt_data_len = 1 + o.tid_len + length o.identifier in
    smf_dpd_option_type
    ∷ (opt_data_len % 256)
    ∷ encode_flags o.h_bit o.tid_type o.tid_len
    ∷ (tagger_bytes o.tagger_id ++ o.identifier)

-- `(flags & 0x80) != 0`, `(flags >> 5) & 0x03` and `flags & 0x1F`
unfoldable pub flag_h_bit : ℕ → Bool
flag_h_bit flags = not (bit_and flags 0x80 == 0)

unfoldable pub flag_tid_type : ℕ → ℕ
flag_tid_type flags = bit_and (flags / 32) 0x03

unfoldable pub flag_tid_len : ℕ → ℕ
flag_tid_len flags = bit_and flags 0x1f

-- What follows the flags byte.
unfoldable pub decode_body : ℕ → Bytes → Option SmfDpdOption
decode_body flags body =
    let tid_len = flag_tid_len flags in
    let identifier = drop tid_len body in
    if ltb (length body) tid_len
    then none
    else if is_empty identifier
    then none
    else some (record {
      h_bit = flag_h_bit flags;
      tid_type = flag_tid_type flags;
      tid_len = tid_len;
      tagger_id = if ltb 0 tid_len then some (take tid_len body) else none;
      identifier = identifier;
    })

unfoldable pub decode : Bytes → Option SmfDpdOption
unfolding decode_body flag_h_bit flag_tid_type flag_tid_len
decode [] = none
decode (flags ∷ body) = if ltb (length (flags ∷ body)) 2 then none else decode_body flags body

unfoldable pub new_i_dpd : Bytes → SmfDpdOption
new_i_dpd identifier = record {
  h_bit = false;
  tid_type = tid_type_null;
  tid_len = 0;
  tagger_id = none;
  identifier = identifier;
}

unfoldable pub new_h_dpd : Bytes → SmfDpdOption
new_h_dpd hav = record {
  h_bit = true;
  tid_type = tid_type_null;
  tid_len = 0;
  tagger_id = none;
  identifier = hav;
}
