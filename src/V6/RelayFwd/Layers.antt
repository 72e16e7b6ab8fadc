-- ===== src/V6/RelayFwd/Layers.antt =====
-- Decapsulation (dhcp/v6/relay_fwd.rs) of replies, nested and not.
use dhcp_relay_agent.Common.{
  ℕ, zero, suc, ◌+◌, ◌%◌, ◌^◌, ◌≤◌, ◌<◌, ◌≡◌, false, none, some, List, [], ◌∷◌, ◌++◌, All, Bytes,
  to_be16, ok, err, arith, nat_eq, if◌then◌else◌, length, take, drop, length-append, length-drop,
  drop-append_self, Result-cases, inl, inr, take_self, ◌>>=◌,
}
use dhcp_relay_agent.Net.{Ipv6Addr, SocketAddr}
use dhcp_relay_agent.Error.{RelayResult}
use dhcp_relay_agent.V6.RelayFwd.{
  relay_repl, option_relay_msg, encapsulate, extract_relay_msg, is_relay_reply, unwrap,
  decapsulate_from, decapsulate,
}
use dhcp_relay_agent.V6.RelayFwd.Options.{
  Tlv, wire, first_relay_msg, extract_relay_msg-wire, extract_step, extracted-shorter,
}

unwrapped-shorter :
    (reply inner : Bytes) → unwrap reply ≡ ok inner → length inner + 38 ≤ length reply
unfolding unwrap extract_relay_msg
unwrapped-shorter [] inner e = cc
unwrapped-shorter (b ∷ bs) inner e = ground (
  arith,
  extracted-shorter (length (drop 34 (b ∷ bs))) (drop 34 (b ∷ bs)) inner,
  length-drop 34 (b ∷ bs),
)

-- More fuel than bytes changes nothing, and is enough.
decapsulate_from-fuel :
    (f g : ℕ) (reply : Bytes)
    → length reply < f
    → length reply < g
    → decapsulate_from f reply ≡ decapsulate_from g reply
unfolding decapsulate_from
decapsulate_from-fuel zero g reply h k = absurd (omega arith)
decapsulate_from-fuel (suc f) zero reply h k = absurd (omega arith)
decapsulate_from-fuel (suc f) (suc g) reply h k = elim (Result-cases (unwrap reply)) [
  | inl (inner, e) ↦
      let shorter = unwrapped-shorter reply inner e in
      ground (arith, e, decapsulate_from-fuel f g inner (omega arith) (omega arith))
  | inr (failure, e) ↦ ground (arith, e)
]

-- The fuel that `decapsulate` gives never runs out.
decapsulate_from-total :
    (f : ℕ) (reply : Bytes)
    → length reply < f
    → (r : RelayResult Bytes) × (decapsulate_from f reply ≡ some r)
unfolding decapsulate_from
decapsulate_from-total zero reply h = absurd (omega arith)
decapsulate_from-total (suc f) reply h = elim (Result-cases (unwrap reply)) [
  | inl (inner, e) ↦
      let shorter = unwrapped-shorter reply inner e in
      let (r, same) = decapsulate_from-total f inner (omega arith) in
      (if is_relay_reply inner then r else ok inner, ground (arith, e, same))
  | inr (failure, e) ↦ (err failure, ground (arith, e))
]

-- The equation of the source: a nested reply is decapsulated in turn.
decapsulate_lem :
    (reply : Bytes)
    → decapsulate reply
      ≡ (unwrap reply >>= λ inner. if is_relay_reply inner then decapsulate inner else ok inner)
unfolding decapsulate decapsulate_from
decapsulate_lem reply = elim (Result-cases (unwrap reply)) [
  | inl (inner, e) ↦
      let shorter = unwrapped-shorter reply inner e in
      let (r, same) = decapsulate_from-total (length reply) inner (omega arith) in
      ground (
        arith,
        e,
        same,
        decapsulate_from-fuel (length reply) (suc (length inner)) inner (omega arith) (omega arith),
      )
  | inr (failure, e) ↦ ground (arith, e)
]

-- Decapsulation ends: its recursion returns a result with any bound on its depth that is above the
-- number of bytes, always the same, which satisfies the recursive equation of the source.
pub decapsulate_from-decapsulate :
    (f : ℕ) (reply : Bytes)
    → length reply < f
    → (decapsulate_from f reply ≡ some (decapsulate reply))
      × (decapsulate reply ≡ (
          unwrap reply >>= λ inner. if is_relay_reply inner then decapsulate inner else ok inner))
unfolding decapsulate
decapsulate_from-decapsulate f reply h =
    let (r, e) = decapsulate_from-total f reply h in
    let same = decapsulate_from-fuel f (suc (length reply)) reply h (omega arith) in
    (ground (arith, e, same), decapsulate_lem reply)

-- A Relay-reply message: its hop count and addresses, 33 bytes, and its options, of which the last
-- holds the relayed message.
pub record Layer : Type 0 where
  pub header : Bytes
  pub options : List Tlv

-- No option is a relay message, and the header has its length.
abbrev pub IsLayer : Layer → Type 0
IsLayer l = (length l.header ≡ 33) × (first_relay_msg l.options ≡ none)

abbrev pub wrap : Layer → Bytes → Bytes
wrap l msg =
    relay_repl
    ∷ (l.header ++ (wire l.options ++ (to_be16 option_relay_msg ++ (to_be16 (length msg) ++ msg))))

-- The message inside all the layers, the outermost first.
abbrev pub nest : List Layer → Bytes → Bytes
nest [] msg = msg
nest (l ∷ ls) msg = wrap l (nest ls msg)

extract_last :
    (ts : List Tlv) (msg : Bytes)
    → first_relay_msg ts ≡ none
    → extract_relay_msg (wire ts ++ (to_be16 option_relay_msg ++ (to_be16 (length msg) ++ msg)))
      ≡ ok msg
extract_last ts msg h = ground (
  arith,
  extract_relay_msg-wire ts (to_be16 option_relay_msg ++ (to_be16 (length msg) ++ msg)),
  extract_step option_relay_msg (length msg) msg,
  take_self msg,
)

unwrap-wrap : (l : Layer) (msg : Bytes) → IsLayer l → unwrap (wrap l msg) ≡ ok msg
unfolding unwrap
unwrap-wrap l msg (n, h) =
    let rest = wire l.options ++ (to_be16 option_relay_msg ++ (to_be16 (length msg) ++ msg)) in
    let cut : drop 33 (l.header ++ rest) ≡ rest = rw n at (drop-append_self l.header rest) in
    ground (arith, cut, extract_last l.options msg h, length-append l.header rest)

-- However many Relay-reply layers stand round a message, with whatever hop counts, addresses and
-- other options, decapsulation gives the message back, if it is no Relay-reply itself.
pub decapsulate-nest :
    (l : Layer) (ls : List Layer) (msg : Bytes)
    → All IsLayer (l ∷ ls)
    → is_relay_reply msg ≡ false
    → decapsulate (nest (l ∷ ls) msg) ≡ ok msg
decapsulate-nest l [] msg (h, _) plain =
    ground (arith, decapsulate_lem (wrap l msg), unwrap-wrap l msg h)
decapsulate-nest l (l' ∷ ls) msg (h, hs) plain = ground (
  arith,
  decapsulate_lem (nest (l ∷ l' ∷ ls) msg),
  unwrap-wrap l (nest (l' ∷ ls) msg) h,
  decapsulate-nest l' ls msg hs plain,
)

unwrap-encapsulate :
    (msg : Bytes) (link : Ipv6Addr) (peer : SocketAddr)
    → unwrap (relay_repl ∷ drop 1 (encapsulate msg link peer)) ≡ ok (take (length msg % 2 ^ 16) msg)
unfolding unwrap encapsulate
unwrap-encapsulate msg link peer =
    ground (arith, extract_step option_relay_msg (length msg % 2 ^ 16) msg)

take_all : (n : ℕ) (xs : Bytes) → n ≡ length xs → take n xs ≡ xs
take_all n xs e = rw e (take_self xs)

-- A Relay-forward message whose type is changed to Relay-reply, as a server does that answers, is
-- decapsulated to the client's message, if that is shorter than 2 ^ 16 bytes and no Relay-reply
-- itself.
pub decapsulate-encapsulate :
    (msg : Bytes) (link : Ipv6Addr) (peer : SocketAddr)
    → length msg < 2 ^ 16
    → is_relay_reply msg ≡ false
    → decapsulate (relay_repl ∷ drop 1 (encapsulate msg link peer)) ≡ ok msg
decapsulate-encapsulate msg link peer short plain = ground (
  arith,
  decapsulate_lem (relay_repl ∷ drop 1 (encapsulate msg link peer)),
  unwrap-encapsulate msg link peer,
  take_all (length msg % 2 ^ 16) msg (omega arith),
)
