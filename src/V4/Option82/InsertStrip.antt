-- ===== src/V4/Option82/InsertStrip.antt =====
-- Insertion of option 82 and its removal (dhcp/v4/option82.rs).
use dhcp_relay_agent.Common.{
  Option, none, some, List, [], ◌∷◌, Bytes, ok, ◌≡◌, ◌≢◌, ◌↔◌, ◌⊎◌, arith, inl, inr,
}
use dhcp_relay_agent.V4.Dhcproto.{Dhcproto, IsDhcproto}
use dhcp_relay_agent.V4.Option82.{
  SubOption, sub_option, sub_opts, with_circuit, with_remote, insert, strip,
}

-- The sub-options that the configured identifiers stand for.
abbrev pub configured : Option Bytes → Option Bytes → List SubOption
configured (some c) (some r) = sub_option 1 c ∷ sub_option 2 r ∷ []
configured (some c) none = sub_option 1 c ∷ []
configured none (some r) = sub_option 2 r ∷ []
configured none none = []

-- A list has exactly these sub-options, in one order or the other.
abbrev pub IsConfigured : Option Bytes → Option Bytes → List SubOption → Type 0
IsConfigured (some c) (some r) ss =
    (ss ≡ sub_option 1 c ∷ sub_option 2 r ∷ []) ⊎ (ss ≡ sub_option 2 r ∷ sub_option 1 c ∷ [])
IsConfigured circuit remote ss = ss ≡ configured circuit remote

module _ (d : Dhcproto) (law : IsDhcproto d) where
  abbrev pub new_info : Option Bytes → Option Bytes → d.AgentInfo
  new_info circuit remote = with_remote d remote (with_circuit d circuit d.no_info)

  pub new_info-IsConfigured :
      (circuit remote : Option Bytes)
      → IsConfigured circuit remote (sub_opts d (new_info circuit remote))
  unfolding sub_opts
  new_info-IsConfigured (some c) (some r) = elim (law.infos-both c r) [
    | inl e ↦ inl (rw e)
    | inr e ↦ inr (rw e)
  ]
  new_info-IsConfigured (some c) none = rw (law.infos-circuit c)
  new_info-IsConfigured none (some r) = rw (law.infos-remote r)
  new_info-IsConfigured none none = rw law.infos-no_info

  -- Insertion succeeds exactly if an identifier is configured and the message has no option 82.
  pub insert-eq-ok_iff :
      (circuit remote : Option Bytes) (m m' : d.Message)
      → (insert d circuit remote m ≡ ok m') ↔ (
          ((circuit ≢ none) ⊎ (remote ≢ none))
          × (d.get_opt82 m ≡ none)
          × (m' ≡ d.insert_opt (d.agent_option (new_info circuit remote)) m))
  unfolding insert
  insert-eq-ok_iff circuit remote m m' = ground arith

  -- What was inserted is stripped again: the sub-options are exactly the configured ones, and the
  -- message has no option 82 left, and the same relay address.
  pub strip-insert :
      (circuit remote : Option Bytes) (m m' : d.Message)
      → insert d circuit remote m ≡ ok m'
      → (ss : List SubOption) × ((strip d m').0 ≡ some ss)
        × IsConfigured circuit remote ss
        × (d.get_opt82 (strip d m').1 ≡ none)
        × (d.giaddr (strip d m').1 ≡ d.giaddr m)
  unfolding strip
  strip-insert circuit remote m m' e =
      let info = new_info circuit remote in
      let (_, _, same) = (insert-eq-ok_iff circuit remote m m').0 e in
      let found = law.get_opt82-insert_opt info m in
      rw same (
        sub_opts d info,
        ground (arith, found, law.as_agent_option-agent_option info),
        new_info-IsConfigured circuit remote,
        ground (arith, found, law.get_opt82-remove_opt82 m'),
        ground (arith, found, law.giaddr-remove_opt82 m', law.giaddr-insert_opt info m),
      )
