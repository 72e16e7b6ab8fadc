-- ===== src/Smf/DpdOption/Flags.antt =====
-- The flags byte of smf/dpd_option.rs: packing and unpacking its three fields.
use dhcp_relay_agent.Common.{
  ℕ, ◌+◌, ◌*◌, ◌/◌, ◌%◌, ◌<◌, ◌≡◌, refl, Bool, true, false, arith, nat_eq, if◌then◌else◌,
}
use dhcp_relay_agent.Common.Tables.{same_below, table_entry}
use dhcp_relay_agent.Smf.DpdOption.{encode_flags, flag_h_bit, flag_tid_type, flag_tid_len}

-- Field by field, in arithmetic.
abbrev pack : Bool → ℕ → ℕ → ℕ
pack h ty len = (if h then 128 else 0) + ty * 32 + len

abbrev encoded : Bool → ℕ → ℕ
encoded h x = encode_flags h (x / 32) (x % 32)

abbrev packed : Bool → ℕ → ℕ
packed h x = pack h (x / 32) (x % 32)

encode_table : (h : Bool) → same_below (encoded h) (packed h) 128 ≡ true
unfolding same_below encode_flags
encode_table true = refl
encode_table false = refl

-- The fields stand side by side in the byte if they fit their widths.
pub encode_flags-eq :
    (h : Bool) (ty len : ℕ) → ty < 4 → len < 32 → encode_flags h ty len ≡ pack h ty len
encode_flags-eq h ty len p q =
    let hi : (ty * 32 + len) / 32 ≡ ty = omega arith in
    let lo : (ty * 32 + len) % 32 ≡ len = omega arith in
    rw (hi, lo) at
      (table_entry 128 (encoded h) (packed h) (ty * 32 + len) (encode_table h) (omega arith))

tid_type_table : same_below flag_tid_type (λ x. x / 32 % 4) 256 ≡ true
unfolding same_below flag_tid_type
tid_type_table = refl

tid_len_table : same_below flag_tid_len (λ x. x % 32) 256 ≡ true
unfolding same_below flag_tid_len
tid_len_table = refl

h_bit_table : same_below (λ x. if flag_h_bit x then 1 else 0) (λ x. x / 128) 256 ≡ true
unfolding same_below flag_h_bit
h_bit_table = refl

module _ (flags : ℕ) (byte : flags < 256) where
  pub flag_tid_type-eq : flag_tid_type flags ≡ flags / 32 % 4
  flag_tid_type-eq = table_entry 256 flag_tid_type (λ x. x / 32 % 4) flags tid_type_table byte

  pub flag_tid_len-eq : flag_tid_len flags ≡ flags % 32
  flag_tid_len-eq = table_entry 256 flag_tid_len (λ x. x % 32) flags tid_len_table byte

  pub flag_h_bit-eq : (if flag_h_bit flags then 1 else 0) ≡ flags / 128
  flag_h_bit-eq =
      table_entry 256 (λ x. if flag_h_bit x then 1 else 0) (λ x. x / 128) flags h_bit_table byte
