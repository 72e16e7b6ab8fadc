-- ===== src/Tests/V6RelayFwdLayers.antt =====
-- The theorems of V6/RelayFwd/Layers.antt at concrete inputs.
use dhcp_relay_agent.Common.{arith, drop, if◌then◌else◌, ok, refl, some, ◌>>=◌, ◌∷◌, ◌≡◌}
use dhcp_relay_agent.Tests.SamplesV6.{layer, layers, link, outer_bytes, peer, solicit_bytes}
use dhcp_relay_agent.V6.RelayFwd.{
  decapsulate, decapsulate_from, encapsulate, is_relay_reply, relay_repl, unwrap,
}
use dhcp_relay_agent.V6.RelayFwd.Layers.{
  decapsulate-encapsulate, decapsulate-nest, decapsulate_from-decapsulate, nest,
}

decapsulate-nest_example : decapsulate (nest (layer ∷ layers) solicit_bytes) ≡ ok solicit_bytes
decapsulate-nest_example =
    decapsulate-nest layer layers solicit_bytes ((refl, refl), ((refl, refl), tt)) refl

decapsulate-encapsulate_example :
    decapsulate (relay_repl ∷ drop 1 (encapsulate solicit_bytes link peer)) ≡ ok solicit_bytes
decapsulate-encapsulate_example = decapsulate-encapsulate solicit_bytes link peer (omega arith) refl

decapsulate_from-decapsulate_example :
    (decapsulate_from 100 outer_bytes ≡ some (decapsulate outer_bytes))
    × (decapsulate outer_bytes ≡ (
        unwrap outer_bytes >>= λ inner.
        if is_relay_reply inner then decapsulate inner else ok inner))
decapsulate_from-decapsulate_example = decapsulate_from-decapsulate 100 outer_bytes (omega arith)
