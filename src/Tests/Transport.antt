-- ===== src/Tests/Transport.antt =====
-- The theorems of Transport.antt at concrete inputs.
use dhcp_relay_agent.Common.{[], ok, refl, take, ◌≡◌}
use dhcp_relay_agent.Tests.Samples.{client, fresh_bytes, reply_bytes, server}
use dhcp_relay_agent.Tests.SamplesAgent.{sockets, transport, used_transport}
use dhcp_relay_agent.Transport.{bind, buf_len, none_yet, one_more, recv_from, recv_from-bind}

recv_from-bind_example :
    (recv_from (ok (reply_bytes, server)) used_transport).0 ≡ ok (take buf_len reply_bytes, server)
recv_from-bind_example =
    recv_from-bind sockets [] client transport used_transport reply_bytes server
      (unfold bind in refl) (one_more (ok (fresh_bytes, client)) none_yet)
