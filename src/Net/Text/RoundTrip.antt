-- ===== src/Net/Text/RoundTrip.antt =====
-- IPv4 addresses as `Display` prints them, and the reading of what it prints.
use dhcp_relay_agent.Common.{
  ℕ, ◌+◌, ◌/◌, ◌%◌, ◌<◌, true, false, Option, none, some, List, [], ◌==◌, ◌∷◌, ◌++◌, Bytes, ◌≡◌,
  refl, ap, arith, ltb, nat_eq, if◌then◌else◌, contains, ==-refl, ◌⊎◌, inr,
}
use dhcp_relay_agent.Common.Tables.{same_below, table_entry}
use dhcp_relay_agent.Net.{Ipv4Addr}
use dhcp_relay_agent.Net.Text.{onto_first, split, octet, first_piece, parse_ipv4}

unfoldable pub show_octet : ℕ → Bytes
show_octet n =
    if ltb n 10
    then (b'0' + n) ∷ []
    else if ltb n 100
    then (b'0' + n / 10) ∷ (b'0' + n % 10) ∷ []
    else (b'0' + n / 100) ∷ (b'0' + n / 10 % 10) ∷ (b'0' + n % 10) ∷ []

-- `Display` of an address.
abbrev pub show_ipv4 : Ipv4Addr → Bytes
show_ipv4 ip =
    show_octet ip.a
    ++ (b'.' ∷ (show_octet ip.b ++ (b'.' ∷ (show_octet ip.c ++ (b'.' ∷ show_octet ip.d)))))

-- The octets are bytes.
pub record IsOctets (ip : Ipv4Addr) : Type 0 where
  pub a_byte : ip.a < 256
  pub b_byte : ip.b < 256
  pub c_byte : ip.c < 256
  pub d_byte : ip.d < 256

pub split-piece :
    (sep : ℕ) (piece rest : Bytes)
    → contains piece sep ≡ false
    → split sep (piece ++ sep ∷ rest) ≡ piece ∷ split sep rest
unfolding split
split-piece sep [] rest h = ground (arith, ==-refl sep)
split-piece sep (x ∷ piece) rest h = ground (arith, split-piece sep piece rest)

pub split-last :
    (sep : ℕ) (piece : Bytes) → contains piece sep ≡ false → split sep piece ≡ piece ∷ []
unfolding split
split-last sep [] h = refl
split-last sep (x ∷ piece) h = ground (arith, split-last sep piece)

onto_first-contains :
    (sep b : ℕ) (pieces : List Bytes)
    → (b == sep) ≡ false
    → contains (first_piece pieces) sep ≡ false
    → contains (first_piece (onto_first b pieces)) sep ≡ false
onto_first-contains sep b [] n h = ground (arith, n)
onto_first-contains sep b (p ∷ pieces) n h = ground (arith, n, h)

-- The separator does not stand in a piece.
pub first_piece-contains :
    (sep : ℕ) (text : Bytes) → contains (first_piece (split sep text)) sep ≡ false
unfolding split
first_piece-contains sep [] = refl
first_piece-contains sep (b ∷ text) =
    ground (arith, onto_first-contains sep b (split sep text), first_piece-contains sep text)

abbrev value : Option ℕ → ℕ
value none = 256
value (some n) = n

octet_table : same_below (λ n. value (octet (show_octet n))) (λ n. n) 256 ≡ true
unfolding same_below octet show_octet
octet_table = refl

value-some : (o : Option ℕ) (n : ℕ) → n < 256 → value o ≡ n → o ≡ some n
value-some none n h e = absurd (omega arith)
value-some (some m) n h e = ap some e

octet-show_octet : (n : ℕ) → n < 256 → octet (show_octet n) ≡ some n
octet-show_octet n h =
    value-some (octet (show_octet n)) n h
      (table_entry 256 (λ n. value (octet (show_octet n))) (λ n. n) n octet_table h)

show_octet-separators :
    (n sep : ℕ) → n < 256 → (sep ≡ b'.') ⊎ (sep ≡ b':') → contains (show_octet n) sep ≡ false
unfolding show_octet
show_octet-separators n sep h e = ground arith

contains-append :
    (xs ys : Bytes) (b : ℕ)
    → contains xs b ≡ false
    → contains ys b ≡ false
    → contains (xs ++ ys) b ≡ false
contains-append [] ys b p q = q
contains-append (x ∷ xs) ys b p q = ground (arith, contains-append xs ys b)

pub show_ipv4-colon : (ip : Ipv4Addr) → IsOctets ip → contains (show_ipv4 ip) b':' ≡ false
show_ipv4-colon ip h =
    let d = show_octet-separators ip.d b':' h.d_byte (inr refl) in
    let c =
      contains-append (show_octet ip.c) (b'.' ∷ show_octet ip.d) b':'
        (show_octet-separators ip.c b':' h.c_byte (inr refl)) d in
    let b =
      contains-append (show_octet ip.b) (b'.' ∷ (show_octet ip.c ++ (b'.' ∷ show_octet ip.d))) b':'
        (show_octet-separators ip.b b':' h.b_byte (inr refl)) c in
    contains-append (show_octet ip.a) _ b':' (show_octet-separators ip.a b':' h.a_byte (inr refl)) b

split-show_ipv4 :
    (ip : Ipv4Addr)
    → IsOctets ip
    → split b'.' (show_ipv4 ip)
      ≡ show_octet ip.a ∷ show_octet ip.b ∷ show_octet ip.c ∷ show_octet ip.d ∷ []
split-show_ipv4 ip h = ground (
  arith,
  split-piece b'.' (show_octet ip.a)
      (show_octet ip.b ++ (b'.' ∷ (show_octet ip.c ++ (b'.' ∷ show_octet ip.d)))),
  split-piece b'.' (show_octet ip.b) (show_octet ip.c ++ (b'.' ∷ show_octet ip.d)),
  split-piece b'.' (show_octet ip.c) (show_octet ip.d),
  split-last b'.' (show_octet ip.d),
  show_octet-separators ip.a b'.' h.a_byte,
  show_octet-separators ip.b b'.' h.b_byte,
  show_octet-separators ip.c b'.' h.c_byte,
  show_octet-separators ip.d b'.' h.d_byte,
)

-- A printed address is read back.
pub parse_ipv4-show_ipv4 : (ip : Ipv4Addr) → IsOctets ip → parse_ipv4 (show_ipv4 ip) ≡ some ip
unfolding parse_ipv4
parse_ipv4-show_ipv4 ip h = ground (
  arith,
  split-show_ipv4 ip h,
  octet-show_octet ip.a h.a_byte,
  octet-show_octet ip.b h.b_byte,
  octet-show_octet ip.c h.c_byte,
  octet-show_octet ip.d h.d_byte,
)

-- A printed address is the text before the first colon, with or without a port behind it.
pub first_piece-show_ipv4 :
    (ip : Ipv4Addr) (port : Bytes)
    → IsOctets ip
    → (first_piece (split b':' (show_ipv4 ip)) ≡ show_ipv4 ip)
      × (first_piece (split b':' (show_ipv4 ip ++ b':' ∷ port)) ≡ show_ipv4 ip)
first_piece-show_ipv4 ip port h = (
  ap first_piece (split-last b':' (show_ipv4 ip) (show_ipv4-colon ip h)),
  ap first_piece (split-piece b':' (show_ipv4 ip) port (show_ipv4-colon ip h)),
)
