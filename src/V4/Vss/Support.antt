-- ===== src/V4/Vss/Support.antt =====
-- The sub-options of dhcp/v4/vss.rs on the wire.
use dhcp_relay_agent.Common.{
  ℕ, zero, suc, ◌≤◌, ◌<◌, ◌≡◌, ◌≢◌, ◌↔◌, refl, true, false, List, [], ◌∷◌, ◌++◌, All, Bytes, ok,
  arith, length, drop, length-drop, length-append, drop-append_self, append-nil,
}
use dhcp_relay_agent.Config.{VssConfig, validate_vss}
use dhcp_relay_agent.V4.Option82.{SubOption, sub_option}
use dhcp_relay_agent.V4.Vss.{
  vss_subopt_code, vss_control_subopt_code, encode_sub_opts, support_from, check_server_support,
}

-- Sub-options one behind the other, each with its code and its length.
abbrev pub wire : List SubOption → Bytes
wire [] = []
wire (s ∷ ss) = s.code ∷ length s.bytes ∷ (s.bytes ++ wire ss)

-- More fuel than bytes changes nothing.
support_from-fuel :
    (f g : ℕ) (raw : Bytes)
    → length raw ≤ f
    → length raw ≤ g
    → support_from f raw ≡ support_from g raw
unfolding support_from
support_from-fuel zero zero raw h k = refl
support_from-fuel zero (suc g) [] h k = refl
support_from-fuel zero (suc g) (b ∷ bs) h k = absurd (omega arith)
support_from-fuel (suc f) zero [] h k = refl
support_from-fuel (suc f) zero (b ∷ bs) h k = absurd (omega arith)
support_from-fuel (suc f) (suc g) [] h k = refl
support_from-fuel (suc f) (suc g) (b ∷ []) h k = refl
support_from-fuel (suc f) (suc g) (code ∷ len ∷ rest) h k =
    let shorter = length-drop len rest in
    ground (arith, support_from-fuel f g (drop len rest) (omega arith) (omega arith))

check_step :
    (code : ℕ) (bytes rest : Bytes)
    → code ≢ vss_control_subopt_code
    → check_server_support (code ∷ length bytes ∷ (bytes ++ rest)) ≡ check_server_support rest
unfolding check_server_support
check_step code bytes rest h =
    let shorter = length-append bytes rest in
    ground (
      arith,
      drop-append_self bytes rest,
      support_from-fuel (suc (length (bytes ++ rest))) (length rest) rest,
    )

check_control :
    (len : ℕ) (rest : Bytes) → check_server_support (vss_control_subopt_code ∷ len ∷ rest) ≡ false
unfolding check_server_support
check_control len rest = refl

-- The server is taken to support VSS exactly if no sub-option of the reply is VSS-Control, whatever
-- bytes the values hold.
pub check_server_support_iff :
    (ss : List SubOption)
    → (check_server_support (wire ss) ≡ true) ↔ All (λ s. s.code ≢ vss_control_subopt_code) ss
check_server_support_iff [] = unfold check_server_support in ground arith
check_server_support_iff (s ∷ ss) = ground (
  arith,
  check_step s.code s.bytes (wire ss),
  check_control (length s.bytes) (s.bytes ++ wire ss),
  check_server_support_iff ss,
)

-- A valid configuration with at most 254 bytes of information is encoded as a VSS sub-option, with
-- the type before the information, and an empty VSS-Control.
pub encode_sub_opts-wire :
    (vss : VssConfig)
    → validate_vss vss ≡ ok tt
    → length vss.vss_info < 255
    → encode_sub_opts vss
      ≡ ok (
        wire (sub_option vss_subopt_code (vss.vss_type ∷ vss.vss_info) ∷ []),
        wire (sub_option vss_control_subopt_code [] ∷ []),
      )
unfolding encode_sub_opts
encode_sub_opts-wire vss valid short = ground (arith, valid, append-nil vss.vss_info)
