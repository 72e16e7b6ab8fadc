-- ===== src/Smf/DpdOption/RoundTrip.antt =====
-- Encoding and decoding of the SMF_DPD option (smf/dpd_option.rs). `decode` is given what follows
-- the option's type and length bytes.
use dhcp_relay_agent.Common.{
  ℕ, zero, suc, ◌≤◌, ◌<◌, ◌≡◌, ◌≢◌, refl, ap₂, Bool, Option, none, some, [], ◌∷◌, ◌++◌, All, Bytes,
  arith, ltb, if◌then◌else◌, length, take, drop, length-append, take-append_self, take-append-drop,
  length-take, drop-append_self,
}
use dhcp_relay_agent.Smf.DpdOption.{
  SmfDpdOption, tagger_bytes, encode_flags, flag_h_bit, flag_tid_type, flag_tid_len, encode,
  decode_body, decode,
}
use dhcp_relay_agent.Smf.DpdOption.Flags.{
  encode_flags-eq, flag_tid_type-eq, flag_tid_len-eq, flag_h_bit-eq,
}

-- What a TaggerId of the announced length looks like: it is absent if the length is 0.
abbrev pub HasLength : Option Bytes → ℕ → Type 0
HasLength none len = len ≡ 0
HasLength (some tid) len = (0 < len) × (length tid ≡ len)

pub record IsWellFormed (o : SmfDpdOption) : Type 0 where
  pub narrow_type : o.tid_type < 4
  pub narrow_len : o.tid_len < 32
  pub tagger : HasLength o.tagger_id o.tid_len
  pub identified : o.identifier ≢ []

-- The fields come back from the flags byte.
module _ (h : Bool) (ty len : ℕ) (p : ty < 4) (q : len < 32) where
  flags-lt : encode_flags h ty len < 256
  flags-lt = ground (arith, encode_flags-eq h ty len p q)

  tid_type-encode : flag_tid_type (encode_flags h ty len) ≡ ty
  tid_type-encode =
      ground
        (arith, encode_flags-eq h ty len p q, flag_tid_type-eq (encode_flags h ty len) flags-lt)

  tid_len-encode : flag_tid_len (encode_flags h ty len) ≡ len
  tid_len-encode =
      ground (arith, encode_flags-eq h ty len p q, flag_tid_len-eq (encode_flags h ty len) flags-lt)

  h_bit-encode : flag_h_bit (encode_flags h ty len) ≡ h
  h_bit-encode =
      ground (arith, encode_flags-eq h ty len p q, flag_h_bit-eq (encode_flags h ty len) flags-lt)

abbrev option : Bool → ℕ → ℕ → Option Bytes → Bytes → SmfDpdOption
option h ty len tagger id = record {
  h_bit = h;
  tid_type = ty;
  tid_len = len;
  tagger_id = tagger;
  identifier = id;
}

decode_body-encode :
    (h : Bool) (ty len : ℕ) (tagger : Option Bytes) (id : Bytes)
    → ty < 4
    → len < 32
    → HasLength tagger len
    → id ≢ []
    → decode_body (encode_flags h ty len) (tagger_bytes tagger ++ id)
      ≡ some (option h ty len tagger id)
unfolding decode_body
decode_body-encode h ty zero none id p q e k =
    ground (arith, tid_type-encode h ty 0 p q, tid_len-encode h ty 0 p q, h_bit-encode h ty 0 p q)
decode_body-encode h ty (suc n) none id p q e k = absurd (omega arith)
decode_body-encode h ty len (some tid) id p q (pos, e) k = ground (
  arith,
  tid_type-encode h ty len p q,
  tid_len-encode h ty len p q,
  h_bit-encode h ty len p q,
  rw e at (take-append_self tid id),
  rw e at (drop-append_self tid id),
  length-append tid id,
)

length-pos : (xs : Bytes) → xs ≢ [] → 0 < length xs
length-pos [] h = absurd (h refl)
length-pos (x ∷ xs) h = omega arith

-- Every well-formed option is decoded from its encoding.
pub decode-encode : (o : SmfDpdOption) → IsWellFormed o → decode (drop 2 (encode o)) ≡ some o
unfolding decode encode
decode-encode o w = ground (
  arith,
  decode_body-encode o.h_bit o.tid_type o.tid_len o.tagger_id o.identifier w.narrow_type
      w.narrow_len w.tagger w.identified,
  length-append (tagger_bytes o.tagger_id) o.identifier,
  length-pos o.identifier w.identified,
)

repack :
    (flags : ℕ)
    → flags < 256
    → encode_flags (flag_h_bit flags) (flag_tid_type flags) (flag_tid_len flags) ≡ flags
repack flags byte = ground (
  arith,
  encode_flags-eq (flag_h_bit flags) (flag_tid_type flags) (flag_tid_len flags),
  flag_h_bit-eq flags byte,
  flag_tid_type-eq flags byte,
  flag_tid_len-eq flags byte,
)

-- The fields of an option that is decoded.
abbrev parts : ℕ → Bytes → SmfDpdOption
parts flags body =
    option (flag_h_bit flags) (flag_tid_type flags) (flag_tid_len flags)
      (if ltb 0 (flag_tid_len flags) then some (take (flag_tid_len flags) body) else none)
      (drop (flag_tid_len flags) body)

decode_body-eq-some :
    (flags : ℕ) (body : Bytes) (o : SmfDpdOption)
    → decode_body flags body ≡ some o
    → (o ≡ parts flags body)
      × (flag_tid_len flags ≤ length body)
      × (drop (flag_tid_len flags) body ≢ [])
unfolding decode_body
decode_body-eq-some flags body o e = ground arith

tagger-append :
    (len : ℕ) (body : Bytes)
    → tagger_bytes (if ltb 0 len then some (take len body) else none) ++ drop len body ≡ body
tagger-append zero body = refl
tagger-append (suc n) body = ground (arith, take-append-drop (suc n) body)

parts-IsWellFormed :
    (flags : ℕ) (body : Bytes)
    → flags < 256
    → flag_tid_len flags ≤ length body
    → drop (flag_tid_len flags) body ≢ []
    → IsWellFormed (parts flags body)
parts-IsWellFormed flags body byte fits some_id = record {
  narrow_type = omega (arith, flag_tid_type-eq flags byte);
  narrow_len = omega (arith, flag_tid_len-eq flags byte);
  tagger = ground (arith, length-take (flag_tid_len flags) body);
  identified = some_id;
}

encode-parts :
    (flags : ℕ) (body : Bytes) → flags < 256 → drop 2 (encode (parts flags body)) ≡ flags ∷ body
unfolding encode
encode-parts flags body byte =
    ap₂ (λ f b. f ∷ b) (repack flags byte) (tagger-append (flag_tid_len flags) body)

-- What is decoded from a list of bytes is well-formed, and its encoding is these bytes behind the
-- option's type and length.
pub encode-decode :
    (wire : Bytes) (o : SmfDpdOption)
    → All (λ b. b < 256) wire
    → decode wire ≡ some o
    → IsWellFormed o × (drop 2 (encode o) ≡ wire)
unfolding decode
encode-decode [] o bytes e = cc
encode-decode (flags ∷ body) o (byte, bytes) e =
    let (same, fits, some_id) = decode_body-eq-some flags body o (ground arith) in
    rw same (parts-IsWellFormed flags body byte fits some_id, encode-parts flags body byte)
