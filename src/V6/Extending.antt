-- ===== src/V6/Extending.antt =====
-- The stages of dhcp/v6/pipeline.rs that add an option to the message.
use Prim.Native.String.{String}
use dhcp_relay_agent.Common.{
  ℕ, Bool, true, false, Option, none, some, List, [], ◌∷◌, ◌++◌, Bytes, ascii, ok, ◌≡◌, refl, sym,
  subst, ◌∙◌, arith, list_eq, nat_eq, if◌then◌else◌, Bool-cases, inl, inr,
}
use dhcp_relay_agent.Common.Assoc
use dhcp_relay_agent.Config.{VssConfig, validate_vss}
use dhcp_relay_agent.Pipeline.{Flow, Stage, execute_stages, modify}
use dhcp_relay_agent.Pipeline.Execution.{execute_stages-pass}
use dhcp_relay_agent.V6.Dhcproto.{
  DhcprotoV6, IsDhcprotoV6, DhcpOption, interface_id, unknown, on_wire, all_on_wire, Inserted,
}
use dhcp_relay_agent.V6.Options.InterfaceId
use dhcp_relay_agent.V6.Options.RemoteId
use dhcp_relay_agent.V6.Options.Vss
use dhcp_relay_agent.V6.Stages.{
  parse_stage, read_v6, add_option, interface_id_stage, remote_id_stage, vss_insert_stage, optional,
  enabled,
}

-- The second list has the options of the first, in the same order, and the added ones, the last
-- added first, each somewhere between them.
pub data Extends : List (ℕ × Bytes) → List (ℕ × Bytes) → List (ℕ × Bytes) → Type 0 where
  same : {xs : List (ℕ × Bytes)} → Extends [] xs xs
  more :
      {a : ℕ × Bytes} {added xs ys zs : List (ℕ × Bytes)}
      → Extends added xs ys
      → Inserted a ys zs
      → Extends (a ∷ added) xs zs

-- Every message can be encoded.
abbrev pub EncodesV6 : DhcprotoV6 → Type 0
EncodesV6 d = (m : d.Message) → (b : Bytes) × (d.encode m ≡ ok b)

-- A text decodes to a message of the same type, with these options added.
pub record IsExtended (d : DhcprotoV6) (m : d.Message) (added : List (ℕ × Bytes)) (bytes : Bytes)
    : Type 0 where
  pub message : d.Message
  pub decoded : d.decode bytes ≡ ok message
  pub msg_type : d.msg_type message ≡ d.msg_type m
  pub options : Extends added (all_on_wire d (d.iter m)) (all_on_wire d (d.iter message))

abbrev with_buffer : Bytes → Flow → Flow
with_buffer b f = record f { ctx = record f.ctx { buffer = b } }

abbrev marked_vss : Flow → Flow
marked_vss f = record f {
  ctx = record f.ctx {
    metadata = Assoc.insert (ascii "vss_inserted") (ascii "true") f.ctx.metadata;
  };
}

-- A VSS configuration that is enabled is valid.
abbrev pub IsValidVss : Option VssConfig → Type 0
IsValidVss none = Unit
IsValidVss (some vss) = vss.enabled ≡ true → validate_vss vss ≡ ok tt

abbrev pub with_vss : VssConfig → Bool → List (ℕ × Bytes) → List (ℕ × Bytes)
with_vss vss flag added = if flag then (68, vss.vss_type ∷ vss.vss_info) ∷ added else added

abbrev pub vss_added : Option VssConfig → List (ℕ × Bytes) → List (ℕ × Bytes)
vss_added none added = added
vss_added (some vss) added = with_vss vss vss.enabled added

module _ (d : DhcprotoV6) (law : IsDhcprotoV6 d) (total : EncodesV6 d) (m : d.Message) where
  -- A stage succeeds, and a message with these options becomes one with those; the destination and
  -- the log are kept.
  abbrev pub Adds : List (ℕ × Bytes) → List (ℕ × Bytes) → List Stage → Flow → Type 0
  Adds added added' stages f =
      (rest : List Stage)
      → IsExtended d m added f.ctx.buffer
      → (g : Flow) × (execute_stages (stages ++ rest) f ≡ execute_stages rest g)
        × IsExtended d m added' g.ctx.buffer

  modify-Extended :
      (stage : String) (o : DhcpOption d.OptionCode d.Rest) (added : List (ℕ × Bytes)) (f : Flow)
      → IsExtended d m added f.ctx.buffer
      → (b : Bytes) × (add_option d stage o f
          ≡ (ok tt, record f { ctx = record f.ctx { buffer = b } }))
        × IsExtended d m (on_wire d o ∷ added) b
  unfolding add_option modify
  modify-Extended stage o added f x =
      let m1 = d.insert_opt o x.message in
      let (b, e) = total m1 in
      let (m2, decoded, same_type, same_options) = law.decode-encode m1 b e in
      (
        b,
        ground (arith, x.decoded, e),
        record {
          message = m2;
          decoded = decoded;
          msg_type = same_type ∙ law.msg_type-insert_opt o x.message ∙ x.msg_type;
          options =
              subst (λ os. Extends (on_wire d o ∷ added) (all_on_wire d (d.iter m)) os)
                (sym same_options) (more x.options (law.iter-insert_opt o x.message));
        },
      )

  pub interface_id-Adds :
      (name : Bytes) (added : List (ℕ × Bytes)) (f : Flow)
      → Adds added ((18, name) ∷ added) (interface_id_stage d name ∷ []) f
  unfolding interface_id_stage InterfaceId.encode
  interface_id-Adds name added f rest x =
      let (b, e, ext) = modify-Extended "dhcpv6::interface_id" (interface_id name) added f x in
      (
        with_buffer b f,
        execute_stages-pass (interface_id_stage d name) rest f (with_buffer b f)
            (ground (arith, e)),
        ext,
      )

  pub remote_id-Adds :
      (id : Bytes) (added : List (ℕ × Bytes)) (f : Flow)
      → Adds added ((37, id) ∷ added) (remote_id_stage d id ∷ []) f
  unfolding remote_id_stage RemoteId.encode
  remote_id-Adds id added f rest x =
      let o = unknown (record { code = d.remote_id_code; data_bytes = id }) in
      let (b, e, ext) = modify-Extended "dhcpv6::remote_id" o added f x in
      (
        with_buffer b f,
        execute_stages-pass (remote_id_stage d id) rest f (with_buffer b f) (ground (arith, e)),
        subst (λ c. IsExtended d m ((c, id) ∷ added) b) law.code_to_u16-remote_id ext,
      )

  vss-Adds :
      (vss : VssConfig) (added : List (ℕ × Bytes)) (f : Flow)
      → vss.enabled ≡ true
      → validate_vss vss ≡ ok tt
      → Adds added ((68, vss.vss_type ∷ vss.vss_info) ∷ added) (vss_insert_stage d vss ∷ []) f
  unfolding vss_insert_stage Vss.encode
  vss-Adds vss added f en valid rest x =
      let payload = vss.vss_type ∷ vss.vss_info in
      let o = unknown (record { code = d.unknown_code 68; data_bytes = payload }) in
      let (b, e, ext) = modify-Extended "dhcpv6::vss::insert" o added f x in
      let g = marked_vss (with_buffer b f) in
      (
        g,
        execute_stages-pass (vss_insert_stage d vss) rest f g (ground (arith, en, valid, e)),
        subst (λ c. IsExtended d m ((c, payload) ∷ added) b)
            (law.code_to_u16-unknown_code 68 (omega arith)) ext,
      )

  -- The optional stages.
  pub enabled-Adds :
      (flag : Bool) (a : ℕ × Bytes) (s : Stage) (added : List (ℕ × Bytes)) (f : Flow)
      → Adds added (a ∷ added) (s ∷ []) f
      → Adds added (if flag then a ∷ added else added) (enabled flag s) f
  enabled-Adds true a s added f h rest x = h rest x
  enabled-Adds false a s added f h rest x = (f, refl, x)

  pub optional-Adds :
      (vss : Option VssConfig) (added : List (ℕ × Bytes)) (f : Flow)
      → IsValidVss vss
      → Adds added (vss_added vss added) (optional vss (vss_insert_stage d)) f
  optional-Adds none added f valid rest x = (f, refl, x)
  optional-Adds (some vss) added f valid rest x = elim (Bool-cases vss.enabled) [
    | inl en ↦
        let (g, e, ext) = vss-Adds vss added f en (valid en) rest x in
        (g, e, subst (λ b. IsExtended d m (with_vss vss b added) g.ctx.buffer) (sym en) ext)
    | inr dis ↦ (
      f,
      execute_stages-pass (vss_insert_stage d vss) rest f f
          (unfold vss_insert_stage in ground (arith, dis)),
      subst (λ b. IsExtended d m (with_vss vss b added) f.ctx.buffer) (sym dis) x,
    )
  ]

  pub parse-ok :
      (rest : List Stage) (f : Flow)
      → d.decode f.ctx.buffer ≡ ok m
      → execute_stages (parse_stage d ∷ rest) f ≡ execute_stages rest f
  parse-ok rest f h =
      execute_stages-pass (parse_stage d) rest f f (unfold parse_stage read_v6 in ground (arith, h))
