-- ===== src/Tests/SmfIdentifiersKeys.antt =====
-- The theorems of Smf/Identifiers/Keys.antt at concrete inputs.
use dhcp_relay_agent.Common.{[], arith, ◌++◌, ◌∷◌, ◌≡◌}
use dhcp_relay_agent.Smf.Identifiers.{i_dpd_packet_id_from_option}
use dhcp_relay_agent.Smf.Identifiers.Keys.{i_dpd_packet_id-zero}
use dhcp_relay_agent.Tests.SamplesSmf.{group, option, source}

i_dpd_packet_id-zero_example :
    i_dpd_packet_id_from_option source group
      (record option { identifier = option.identifier ++ 0 ∷ [] })
    ≡ i_dpd_packet_id_from_option source group option
i_dpd_packet_id-zero_example = i_dpd_packet_id-zero source group option (omega arith)
