-- ===== src/V6/RelayFwd/Options.antt =====
-- The extraction of the relay-message option (dhcp/v6/relay_fwd.rs) against the grammar of DHCPv6
-- options.
use dhcp_relay_agent.Common.{
  ℕ, zero, suc, ◌+◌, ◌≤◌, ◌<◌, ◌≡◌, refl, Option, none, some, List, [], ◌∷◌, ◌++◌, Bytes, to_be16,
  from_be16, ok, err, arith, ◌==◌, nat_eq, ltb, if◌then◌else◌, length, take, drop, length-append,
  length-drop, length-take, take-append_self, drop-append_self, append_assoc,
}
use dhcp_relay_agent.Error.{RelayResult}
use dhcp_relay_agent.V6.RelayFwd.{
  option_relay_msg, option_header, no_relay_msg, truncated_option, extract_from, extract_relay_msg,
}

-- An option, and options one behind the other, on the wire.
pub record Tlv : Type 0 where
  pub code : ℕ
  pub value : Bytes

abbrev pub wire : List Tlv → Bytes
wire [] = []
wire (t ∷ ts) = to_be16 t.code ++ (to_be16 (length t.value) ++ (t.value ++ wire ts))

-- The value of the first relay-message option.
abbrev pub first_relay_msg : List Tlv → Option Bytes
first_relay_msg [] = none
first_relay_msg (t ∷ ts) = if t.code == option_relay_msg then some t.value else first_relay_msg ts

abbrev pub or_missing : Option Bytes → RelayResult Bytes
or_missing (some value) = ok value
or_missing none = err no_relay_msg

-- More fuel than bytes changes nothing.
extract_from-fuel :
    (f g : ℕ) (options : Bytes)
    → length options ≤ f
    → length options ≤ g
    → extract_from f options ≡ extract_from g options
unfolding extract_from
extract_from-fuel zero zero options h k = refl
extract_from-fuel zero (suc g) [] h k = refl
extract_from-fuel zero (suc g) (b ∷ bs) h k = absurd (omega arith)
extract_from-fuel (suc f) zero [] h k = refl
extract_from-fuel (suc f) zero (b ∷ bs) h k = absurd (omega arith)
extract_from-fuel (suc f) (suc g) (c₁ ∷ c₂ ∷ l₁ ∷ l₂ ∷ rest) h k =
    let len = from_be16 l₁ l₂ in
    let shorter = length-drop len rest in
    ground (arith, extract_from-fuel f g (drop len rest) (omega arith) (omega arith))
extract_from-fuel (suc f) (suc g) _ h k = refl

option_header-wire :
    (code len : ℕ) (rest : Bytes)
    → option_header (to_be16 code ++ (to_be16 len ++ rest)) ≡ some (code, len, rest)
option_header-wire code len rest = ground arith

-- One round of the loop.
pub extract_step :
    (code len : ℕ) (rest : Bytes)
    → extract_relay_msg (to_be16 code ++ (to_be16 len ++ rest)) ≡ (
        if ltb (length rest) len
        then err (truncated_option code len rest)
        else if code == option_relay_msg
        then ok (take len rest)
        else extract_relay_msg (drop len rest))
unfolding extract_relay_msg extract_from
extract_step code len rest = ground (
  arith,
  option_header-wire code len rest,
  extract_from-fuel (3 + length rest) (length (drop len rest)) (drop len rest),
  length-drop len rest,
)

-- The value of the first relay-message option is extracted, whatever follows; behind options of
-- which none is a relay message the extraction goes on with what follows.
pub extract_relay_msg-wire :
    (ts : List Tlv) (rest : Bytes)
    → extract_relay_msg (wire ts ++ rest)
      ≡ (elim (first_relay_msg ts) [ some value ↦ ok value | none ↦ extract_relay_msg rest ])
extract_relay_msg-wire [] rest = refl
extract_relay_msg-wire (t ∷ ts) rest =
    let tail = wire ts ++ rest in
    rw (append_assoc t.value (wire ts) rest, extract_step t.code (length t.value) (t.value ++ tail))
      (ground (
        arith,
        length-append t.value tail,
        take-append_self t.value tail,
        drop-append_self t.value tail,
        extract_relay_msg-wire ts rest,
      ))

short-eq-err : (rest : Bytes) → length rest < 4 → extract_relay_msg rest ≡ err no_relay_msg
unfolding extract_relay_msg extract_from
short-eq-err [] h = refl
short-eq-err (a ∷ []) h = refl
short-eq-err (a ∷ b ∷ []) h = refl
short-eq-err (a ∷ b ∷ c ∷ []) h = refl
short-eq-err (a ∷ b ∷ c ∷ d ∷ rest) h = absurd (omega arith)

-- Of a list of options, with up to three bytes behind it, exactly the value of the first relay
-- message option is extracted; without one the result is the error that says so.
pub extract_complete :
    (ts : List Tlv) (rest : Bytes)
    → length rest < 4
    → extract_relay_msg (wire ts ++ rest) ≡ or_missing (first_relay_msg ts)
extract_complete ts rest h = ground (arith, extract_relay_msg-wire ts rest, short-eq-err rest h)

-- An option that announces more bytes than there are, behind options of which none is a relay
-- message, is an error that names its code, its length and the number of bytes that are left.
pub extract_truncated :
    (ts : List Tlv) (code len : ℕ) (rest : Bytes)
    → first_relay_msg ts ≡ none
    → length rest < len
    → extract_relay_msg (wire ts ++ (to_be16 code ++ (to_be16 len ++ rest)))
      ≡ err (truncated_option code len rest)
extract_truncated ts code len rest h short = ground (
  arith,
  extract_relay_msg-wire ts (to_be16 code ++ (to_be16 len ++ rest)),
  extract_step code len rest,
)

-- What is extracted is shorter than the options by the option's header.
pub extracted-shorter :
    (f : ℕ) (options inner : Bytes)
    → extract_from f options ≡ ok inner
    → length inner + 4 ≤ length options
unfolding extract_from
extracted-shorter zero options inner e = cc
extracted-shorter (suc f) [] inner e = cc
extracted-shorter (suc f) (a ∷ []) inner e = cc
extracted-shorter (suc f) (a ∷ b ∷ []) inner e = cc
extracted-shorter (suc f) (a ∷ b ∷ c ∷ []) inner e = cc
extracted-shorter (suc f) (c₁ ∷ c₂ ∷ l₁ ∷ l₂ ∷ rest) inner e =
    let len = from_be16 l₁ l₂ in
    ground
      (arith, extracted-shorter f (drop len rest) inner, length-drop len rest, length-take len rest)
