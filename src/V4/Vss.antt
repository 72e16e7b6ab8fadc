-- ===== src/V4/Vss.antt =====
-- dhcp/v4/vss.rs: the VSS sub-options of option 82 (RFC 6607). A position in a slice is the rest of
-- the slice from there.
pub mod Support
use dhcp_relay_agent.Common.{
  ℕ, zero, suc, ◌+◌, ◌%◌, Bool, true, false, Option, none, some, [], ◌∷◌, ◌++◌, Bytes, ok, ◌>>◌,
  ◌==◌, nat_eq, if◌then◌else◌, length, drop,
}
use dhcp_relay_agent.Error.{RelayResult}
use dhcp_relay_agent.Config.{VssConfig, validate_vss}

abbrev pub vss_subopt_code : ℕ
vss_subopt_code = 151

abbrev pub vss_control_subopt_code : ℕ
vss_control_subopt_code = 152

abbrev pub subopt_header_len : ℕ
subopt_header_len = 2

abbrev pub vss_type_offset : ℕ
vss_type_offset = 1

-- The length byte is cast to a u8.
unfoldable pub encode_sub_opts : VssConfig → RelayResult (Bytes × Bytes)
encode_sub_opts vss = do
  validate_vss vss
  ok (
    vss_subopt_code ∷ ((1 + length vss.vss_info) % 256) ∷ vss.vss_type ∷ vss.vss_info,
    vss_control_subopt_code ∷ 0 ∷ [],
  )

-- The loop. Each round takes two bytes or more, so the number of bytes is fuel enough, and without
-- fuel there are no bytes.
unfoldable pub support_from : ℕ → Bytes → Bool
support_from zero raw = true
support_from (suc fuel) [] = true
support_from (suc fuel) (_ ∷ []) = true
support_from (suc fuel) (code ∷ len ∷ rest) =
    let later = support_from fuel (drop len rest) in
    if code == vss_control_subopt_code then false else later

unfoldable pub check_server_support : Bytes → Bool
unfolding support_from
check_server_support sub_opts_raw = support_from (length sub_opts_raw) sub_opts_raw
