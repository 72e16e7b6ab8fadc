-- ===== src/Net/Socket.antt =====
-- Socket addresses as texts: `SocketAddr::from_str` of the standard library, with the IPv6
-- addresses in brackets, as lib.rs uses it. The scope of an IPv6 address is read and left out.
pub mod Rejects
use dhcp_relay_agent.Common.{
  ℕ, zero, suc, ◌+◌, ◌*◌, ◌-◌, ◌/◌, ◌%◌, ◌<◌, ◌^◌, Bool, true, false, ◌&&◌, ◌||◌, Option, none,
  some, List, [], ◌∷◌, ◌++◌, Bytes, leb, ltb, ◌==◌, nat_eq, if◌then◌else◌, length, is_empty,
}
use dhcp_relay_agent.Net.{Ipv4Addr, Ipv6Addr, ipv6, v4, v6, SocketAddr, socket}
use dhcp_relay_agent.Net.Text.{split, decimal, parse_ipv4}

-- The text before the first separator, and the one behind it.
unfoldable pub before : ℕ → Bytes → Option (Bytes × Bytes)
before sep [] = none
before sep (b ∷ bs) =
    let rest = before sep bs in
    if b == sep then some ([], bs) else elim rest [ none ↦ none | some (l, r) ↦ some (b ∷ l, r) ]

abbrev pub below : ℕ → Option ℕ → Option ℕ
below top none = none
below top (some n) = if ltb n top then some n else none

-- A decimal number of at least one digit; leading zeros are allowed.
unfoldable pub number : ℕ → Bytes → Option ℕ
number top text = if is_empty text then none else below top (decimal text (some 0))

abbrev pub parse_port : Bytes → Option ℕ
parse_port text = number (2 ^ 16) text

abbrev pub join_socket : Option Ipv4Addr → Option ℕ → Option SocketAddr
join_socket (some ip) (some port) = some (socket (v4 ip) port)
join_socket _ _ = none

abbrev pub socket_of_pieces : List Bytes → Option SocketAddr
socket_of_pieces (ip ∷ port ∷ []) = join_socket (parse_ipv4 ip) (parse_port port)
socket_of_pieces _ = none

-- `a.b.c.d:port`
unfoldable pub parse_socket_v4 : Bytes → Option SocketAddr
unfolding split
parse_socket_v4 text = socket_of_pieces (split b':' text)

abbrev pub hex_digit : ℕ → Option ℕ
hex_digit b =
    if leb b'0' b && leb b b'9'
    then some (b - b'0')
    else if leb b'a' b && leb b b'f'
    then some (b - b'a' + 10)
    else if leb b'A' b && leb b b'F'
    then some (b - b'A' + 10)
    else none

abbrev pub hexadecimal : Bytes → ℕ → Option ℕ
hexadecimal [] acc = some acc
hexadecimal (b ∷ bs) acc = elim (hex_digit b) [
  | none ↦ none
  | some n ↦ hexadecimal bs (acc * 16 + n)
]

-- One group: one to four hexadecimal digits.
unfoldable pub group : Bytes → Option ℕ
group text = if is_empty text || ltb 4 (length text) then none else hexadecimal text 0

abbrev pub cons_group : Option ℕ → Option (List ℕ) → Option (List ℕ)
cons_group (some g) (some gs) = some (g ∷ gs)
cons_group _ _ = none

-- An IPv4 address stands for the last two groups.
abbrev pub two_groups : Option Ipv4Addr → Option (List ℕ)
two_groups none = none
two_groups (some ip) = some ((ip.a * 256 + ip.b) ∷ (ip.c * 256 + ip.d) ∷ [])

abbrev pub last_groups : Bool → Bytes → Option (List ℕ)
last_groups ends_in_ipv4 text = elim (two_groups (if ends_in_ipv4 then parse_ipv4 text else none)) [
  | some gs ↦ some gs
  | none ↦ cons_group (group text) (some [])
]

unfoldable pub groups : Bool → List Bytes → Option (List ℕ)
unfolding group
groups ends_in_ipv4 [] = none
groups ends_in_ipv4 (text ∷ []) = last_groups ends_in_ipv4 text
groups ends_in_ipv4 (text ∷ t ∷ ts) = cons_group (group text) (groups ends_in_ipv4 (t ∷ ts))

-- The texts around the first `::`.
unfoldable pub around : Bytes → Option (Bytes × Bytes)
around [] = none
around (b ∷ []) = none
around (b ∷ c ∷ bs) =
    let rest = around (c ∷ bs) in
    if b == b':' && c == b':'
    then some ([], bs)
    else elim rest [ none ↦ none | some (l, r) ↦ some (b ∷ l, r) ]

abbrev pub zeros : ℕ → List ℕ
zeros zero = []
zeros (suc n) = 0 ∷ zeros n

abbrev pub of_groups : List ℕ → Option Ipv6Addr
of_groups (a ∷ b ∷ c ∷ d ∷ e ∷ f ∷ g ∷ h ∷ []) = some (ipv6 a b c d e f g h)
of_groups _ = none

abbrev pub or_no_groups : Bool → Bytes → Option (List ℕ)
or_no_groups ends_in_ipv4 [] = some []
or_no_groups ends_in_ipv4 (b ∷ bs) = groups ends_in_ipv4 (split b':' (b ∷ bs))

-- `::` stands for at least one group.
abbrev pub fill : Option (List ℕ) → Option (List ℕ) → Option Ipv6Addr
fill (some l) (some r) =
    if ltb (length l + length r) 8
    then of_groups (l ++ zeros (8 - (length l + length r)) ++ r)
    else none
fill _ _ = none

unfoldable pub parse_ipv6 : Bytes → Option Ipv6Addr
unfolding split groups around
parse_ipv6 text = elim (around text) [
  | some (l, r) ↦ fill (or_no_groups false l) (or_no_groups true r)
  | none ↦ elim (groups true (split b':' text)) [ some gs ↦ of_groups gs | none ↦ none ]
]

-- `addr` or `addr%scope`
unfoldable pub parse_scoped : Bytes → Option Ipv6Addr
unfolding before number parse_ipv6
parse_scoped text = elim (before b'%' text) [
  | none ↦ parse_ipv6 text
  | some (ip, scope) ↦ elim (number (2 ^ 32) scope) [ none ↦ none | some _ ↦ parse_ipv6 ip ]
]

abbrev pub join_socket6 : Option Ipv6Addr → Option ℕ → Option SocketAddr
join_socket6 (some ip) (some port) = some (socket (v6 ip) port)
join_socket6 _ _ = none

abbrev pub after_colon : Bytes → Option ℕ
after_colon [] = none
after_colon (b ∷ bs) = if b == b':' then parse_port bs else none

abbrev pub of_brackets : Option (Bytes × Bytes) → Option SocketAddr
of_brackets none = none
of_brackets (some (ip, rest)) = join_socket6 (parse_scoped ip) (after_colon rest)

-- `[addr]:port`
unfoldable pub parse_socket_v6 : Bytes → Option SocketAddr
unfolding before parse_scoped
parse_socket_v6 [] = none
parse_socket_v6 (b ∷ bs) = if b == b'[' then of_brackets (before b']' bs) else none

abbrev pub or_else {ℓ} : {A : Type ℓ} → Option A → Option A → Option A
or_else none y = y
or_else (some x) y = some x

-- `text.parse::<SocketAddr>()`
unfoldable pub parse_socket : Bytes → Option SocketAddr
unfolding parse_socket_v4 parse_socket_v6
parse_socket text = or_else (parse_socket_v4 text) (parse_socket_v6 text)
