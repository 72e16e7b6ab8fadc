-- ===== src/Tests/SmfDpdOptionRoundTrip.antt =====
-- The theorems of Smf/DpdOption/RoundTrip.antt at concrete inputs.
use dhcp_relay_agent.Common.{arith, drop, refl, some, ◌≡◌}
use dhcp_relay_agent.Smf.DpdOption.{
  decode, decode_body, encode, flag_h_bit, flag_tid_len, flag_tid_type,
}
use dhcp_relay_agent.Smf.DpdOption.RoundTrip.{IsWellFormed, decode-encode, encode-decode}
use dhcp_relay_agent.Tests.SamplesSmf.{option, option-IsWellFormed, option_wire}

decode-encode_example : decode (drop 2 (encode option)) ≡ some option
decode-encode_example = decode-encode option option-IsWellFormed

encode-decode_example : IsWellFormed option × (drop 2 (encode option) ≡ option_wire)
encode-decode_example =
    encode-decode option_wire option (omega arith, (omega arith, (omega arith, (omega arith, tt))))
      (unfold decode decode_body flag_h_bit flag_tid_type flag_tid_len in refl)
