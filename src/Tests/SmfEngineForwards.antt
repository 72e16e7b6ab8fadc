-- ===== src/Tests/SmfEngineForwards.antt =====
-- The theorems of Smf/Engine/Forwards.antt at concrete inputs.
use dhcp_relay_agent.Common.{Bytes, none, ok, some, ◌≡◌, ◌⊎◌}
use dhcp_relay_agent.Smf.Engine.{process_packet}
use dhcp_relay_agent.Smf.Engine.Forwards.{IsDecremented, Passes, process_packet_lem, ttl_place}
use dhcp_relay_agent.Tests.SamplesSmf.{engine, group, packet_bytes, source}
use dhcp_relay_agent.Tests.SamplesV6.{iface}

process_packet_lem_example :
    (Passes engine source group 5 iface source
      × ((out : Bytes) × (process_packet engine packet_bytes source group 5 iface source
            ≡ ok (some out))
          × IsDecremented packet_bytes (ttl_place group) 5 out))
    ⊎ ((¬ Passes engine source group 5 iface source)
        × (process_packet engine packet_bytes source group 5 iface source ≡ ok none))
process_packet_lem_example = process_packet_lem engine packet_bytes source group 5 iface source
