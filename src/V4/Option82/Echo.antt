-- ===== src/V4/Option82/Echo.antt =====
-- `validate_echo` of dhcp/v4/option82.rs.
use dhcp_relay_agent.Common.{
  true, List, [], ◌∷◌, ◌≡◌, ◌↔◌, ap, arith, nat_eq, list_eq, list_beq_iff, length,
}
use dhcp_relay_agent.V4.Option82.{SubOption, all_equal, validate_echo}

all_equal_iff :
    (rs ss : List SubOption) → length rs ≡ length ss → (all_equal rs ss ≡ true) ↔ (rs ≡ ss)
all_equal_iff [] [] l = ground arith
all_equal_iff [] (s ∷ ss) l = absurd (omega arith)
all_equal_iff (r ∷ rs) [] l = absurd (omega arith)
all_equal_iff (r ∷ rs) (s ∷ ss) l =
    ground (arith, list_beq_iff r.bytes s.bytes, all_equal_iff rs ss)

-- The echo is accepted exactly if the received sub-options are the sent ones, in the same order.
pub validate_echo_iff :
    (received sent : List SubOption) → (validate_echo received sent ≡ true) ↔ (received ≡ sent)
unfolding validate_echo
validate_echo_iff received sent =
    ground (arith, all_equal_iff received sent, λ (e : received ≡ sent). ap length e)
