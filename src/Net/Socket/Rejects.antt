-- ===== src/Net/Socket/Rejects.antt =====
-- Texts that `SocketAddr::from_str` takes and refuses, by their colons.
use dhcp_relay_agent.Common.{
  ℕ, false, none, some, [], ◌∷◌, ◌++◌, Bytes, ◌≡◌, refl, arith, ◌==◌, nat_eq, Option-cases,
  append-nil, inl, inr, contains,
}
use dhcp_relay_agent.Net.Text.{parse_ipv4}
use dhcp_relay_agent.Net.Text.RoundTrip.{split-piece, split-last}
use dhcp_relay_agent.Net.Socket.{
  before, parse_port, join_socket, parse_socket_v4, groups, around, parse_ipv6, parse_scoped,
  parse_socket_v6, parse_socket, of_brackets,
}

-- The two parts of a text without this byte are without it.
before-contains :
    (sep b : ℕ) (text l r : Bytes)
    → contains text b ≡ false
    → before sep text ≡ some (l, r)
    → (contains l b ≡ false) × (contains r b ≡ false)
unfolding before
before-contains sep b [] l r h e = ground arith
before-contains sep b (x ∷ text) l r h e = elim (Option-cases (before sep text)) [
  | inl n ↦ ground (arith, n, h, e)
  | inr ((l', r'), e') ↦ ground (arith, e', before-contains sep b text l' r', h, e)
]

before-append :
    (sep : ℕ) (x y : Bytes)
    → before sep y ≡ none
    → before sep (x ++ y) ≡ elim (before sep x) [ none ↦ none | some (l, r) ↦ some (l, r ++ y) ]
unfolding before
before-append sep [] y h = h
before-append sep (b ∷ x) y h = ground (arith, before-append sep x y h)

around-none : (text : Bytes) → contains text b':' ≡ false → around text ≡ none
unfolding around
around-none [] h = refl
around-none (b ∷ []) h = refl
around-none (b ∷ c ∷ bs) h = ground (arith, around-none (c ∷ bs))

-- One piece has one group or two.
parse_ipv6-none : (text : Bytes) → contains text b':' ≡ false → parse_ipv6 text ≡ none
unfolding parse_ipv6 groups
parse_ipv6-none text h = ground (arith, around-none text h, split-last b':' text h)

parse_scoped-none : (text : Bytes) → contains text b':' ≡ false → parse_scoped text ≡ none
unfolding parse_scoped
parse_scoped-none text h = elim (Option-cases (before b'%' text)) [
  | inl n ↦ ground (arith, n, parse_ipv6-none text h)
  | inr ((l, r), e) ↦
      ground (arith, e, parse_ipv6-none l (before-contains b'%' b':' text l r h e).0)
]

of_brackets-none :
    (text y : Bytes)
    → contains text b':' ≡ false
    → before b']' y ≡ none
    → of_brackets (before b']' (text ++ y)) ≡ none
of_brackets-none text y h n = elim (Option-cases (before b']' text)) [
  | inl m ↦ ground (arith, m, before-append b']' text y n)
  | inr ((l, r), e) ↦ ground (
    arith,
    e,
    before-append b']' text y n,
    parse_scoped-none l (before-contains b']' b':' text l r h e).0,
  )
]

before-tail : (sep b : ℕ) (text : Bytes) → before sep (b ∷ text) ≡ none → before sep text ≡ none
unfolding before
before-tail sep b text h = elim (Option-cases (before sep text)) [
  | inl n ↦ n
  | inr (p, e) ↦ ground (arith, e, h)
]

before-cons :
    (sep b : ℕ) (text : Bytes)
    → (b == sep) ≡ false
    → before sep text ≡ none
    → before sep (b ∷ text) ≡ none
unfolding before
before-cons sep b text h n = ground (arith, h, n)

-- No IPv6 address stands in front of the first colon.
parse_socket_v6-none :
    (text y : Bytes)
    → contains text b':' ≡ false
    → before b']' y ≡ none
    → parse_socket_v6 (text ++ y) ≡ none
unfolding parse_socket_v6
parse_socket_v6-none [] [] h n = refl
parse_socket_v6-none [] (b ∷ y) h n =
    ground (arith, of_brackets-none [] y refl (before-tail b']' b y n))
parse_socket_v6-none (b ∷ text) y h n = ground (arith, of_brackets-none text y, h, n)

-- A text without a colon is no socket address.
pub parse_socket-none : (text : Bytes) → contains text b':' ≡ false → parse_socket text ≡ none
unfolding parse_socket parse_socket_v4
parse_socket-none text h =
    ground (arith, split-last b':' text h, append-nil text, parse_socket_v6-none text [] h refl)

-- An address without a colon, with a port behind one, is an IPv4 socket address or none.
pub parse_socket-colon :
    (ip port : Bytes)
    → contains ip b':' ≡ false
    → contains port b':' ≡ false
    → before b']' port ≡ none
    → parse_socket (ip ++ b':' ∷ port) ≡ join_socket (parse_ipv4 ip) (parse_port port)
unfolding parse_socket parse_socket_v4
parse_socket-colon ip port h p n = ground (
  arith,
  split-piece b':' ip port h,
  split-last b':' port p,
  parse_socket_v6-none ip (b':' ∷ port) h (before-cons b']' b':' port refl n),
)
