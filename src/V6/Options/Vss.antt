-- ===== src/V6/Options/Vss.antt =====
-- dhcp/v6/vss.rs: the VSS option, which dhcproto has no variant for.
use dhcp_relay_agent.Common.{
  ℕ, Option, none, some, List, [], ◌∷◌, ◌++◌, Bytes, All, ok, ◌>>◌, ◌≡◌, ◌≢◌, refl, arith, ◌==◌,
  nat_eq, ◌∙◌, if◌then◌else◌,
}
use dhcp_relay_agent.Error.{RelayResult}
use dhcp_relay_agent.Config.{VssConfig, validate_vss}
use dhcp_relay_agent.V6.Dhcproto.{DhcprotoV6, IsDhcprotoV6, DhcpOption, interface_id, unknown, rest}

abbrev pub vss_option_code : ℕ
vss_option_code = 68

-- `data.is_empty()`, `data[0]` and `data[1..]`
abbrev split_info : Bytes → Option (ℕ × Bytes)
split_info [] = none
split_info (vss_type ∷ vss_info) = some (vss_type, vss_info)

module _ (d : DhcprotoV6) where
  unfoldable pub encode : VssConfig → RelayResult (DhcpOption d.OptionCode d.Rest)
  unfolding validate_vss
  encode vss = do
    validate_vss vss
    ok (unknown (record { code = d.unknown_code 68; data_bytes = vss.vss_type ∷ vss.vss_info }))

  -- The loop over the options.
  unfoldable pub extract : List (DhcpOption d.OptionCode d.Rest) → Option (ℕ × Bytes)
  extract [] = none
  extract (unknown unk ∷ opts) =
      let later = extract opts in
      if d.code_to_u16 unk.code == vss_option_code then split_info unk.data_bytes else later
  extract (_ ∷ opts) = extract opts

  -- Options before the VSS option that do not have its code.
  abbrev IsNoVss : DhcpOption d.OptionCode d.Rest → Type 0
  IsNoVss (unknown u) = d.code_to_u16 u.code ≢ vss_option_code
  IsNoVss _ = Unit

  extract-none :
      (before after : List (DhcpOption d.OptionCode d.Rest))
      → All IsNoVss before
      → extract (before ++ after) ≡ extract after
  unfolding extract
  extract-none [] after no_vss = refl
  extract-none (unknown u ∷ before) after (n, no_vss) =
      ground (arith, extract-none before after no_vss)
  extract-none (interface_id bytes ∷ before) after (_, no_vss) = extract-none before after no_vss
  extract-none (rest o ∷ before) after (_, no_vss) = extract-none before after no_vss

-- A valid configuration is encoded to an option, and it is extracted again, type and information,
-- from any options where none with its code comes before it.
pub extract-encode :
    (d : DhcprotoV6) (law : IsDhcprotoV6 d) (vss : VssConfig)
    (before after : List (DhcpOption d.OptionCode d.Rest))
    → validate_vss vss ≡ ok tt
    → All (IsNoVss d) before
    → (o : DhcpOption d.OptionCode d.Rest) × (encode d vss ≡ ok o)
      × (extract d (before ++ o ∷ after) ≡ some (vss.vss_type, vss.vss_info))
unfolding encode
extract-encode d law vss before after valid no_vss =
    let data_bytes = vss.vss_type ∷ vss.vss_info in
    let o = unknown (record { code = d.unknown_code 68; data_bytes = data_bytes }) in
    (
      o,
      ground (arith, valid),
      extract-none d before (o ∷ after) no_vss
          ∙ unfold extract in ground (arith, law.code_to_u16-unknown_code 68),
    )
