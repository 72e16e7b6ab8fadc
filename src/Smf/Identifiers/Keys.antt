-- ===== src/Smf/Identifiers/Keys.antt =====
-- What the packet keys of smf/dpd_ipv4.rs and smf/dpd_ipv6.rs tell apart.
use mathlib.Core.List.{foldl}
use dhcp_relay_agent.Common.{
  ℕ, zero, suc, ◌+◌, ◌*◌, ◌^◌, ◌≤◌, ◌<◌, ◌≡◌, ◌∙◌, ◌↔◌, refl, sym, ap, min, [], ◌∷◌, ◌++◌, All,
  Bytes, arith, length, take, drop, take_self, replicate, length-append, take-append_self,
  append_assoc, ap₂,
}
use dhcp_relay_agent.Net.{IpAddr, v4, v6, octets}
use dhcp_relay_agent.Smf.DpdOption.{SmfDpdOption}
use dhcp_relay_agent.Smf.Identifiers.{
  key_of, hash_input, h_dpd_hash, from_be, bytes_to_u64, i_dpd_packet_id_from_option,
}

-- Both addresses are of one IP version.
abbrev pub SameVersion : IpAddr → IpAddr → Type 0
SameVersion (v4 _) (v4 _) = Unit
SameVersion (v6 _) (v6 _) = Unit
SameVersion _ _ = ⊥

octets-injective :
    (a b : IpAddr) (xs ys : Bytes)
    → SameVersion a b
    → octets a ++ xs ≡ octets b ++ ys
    → (a ≡ b) × (xs ≡ ys)
octets-injective (v4 a) (v4 b) xs ys s e = ground arith
octets-injective (v6 a) (v6 b) xs ys s e = ground arith
octets-injective (v4 a) (v6 b) xs ys s e = elim s [ ]
octets-injective (v6 a) (v4 b) xs ys s e = elim s [ ]

take-min-length : (n : ℕ) (xs : Bytes) → take (min n (length xs)) xs ≡ take n xs
take-min-length zero xs = ground arith
take-min-length (suc n) [] = ground arith
take-min-length (suc n) (x ∷ xs) = ground (arith, take-min-length n xs)

-- Packets whose addresses are of the same versions have the same hash input exactly if they agree
-- in source, destination and the first 64 bytes of their payloads.
pub hash_input_iff :
    (src dst src' dst' : IpAddr) (payload payload' : Bytes)
    → SameVersion src src'
    → SameVersion dst dst'
    → (hash_input src dst payload ≡ hash_input src' dst' payload')
      ↔ ((src ≡ src') × (dst ≡ dst') × (take 64 payload ≡ take 64 payload'))
unfolding hash_input
hash_input_iff src dst src' dst' payload payload' p q = (
  λ e.
      let (a, rest) = octets-injective src src' _ _ p e in
      let (b, cut) = octets-injective dst dst' _ _ q rest in
      (a, b, sym (take-min-length 64 payload) ∙ cut ∙ take-min-length 64 payload'),
  λ (a, b, cut). cc (a, b, cut, take-min-length 64 payload, take-min-length 64 payload'),
)

-- Two packets that the hash input does not tell apart get the same key and the same Hash Assist
-- Value, whatever the hash function; the value is the key's packet identifier and fits 64 bits.
pub h_dpd_hash_lem :
    (murmur3 : Bytes → ℕ) (src dst : IpAddr) (payload payload' : Bytes)
    → take 64 payload ≡ take 64 payload'
    → (h_dpd_hash murmur3 src dst payload ≡ h_dpd_hash murmur3 src dst payload')
      × ((h_dpd_hash murmur3 src dst payload).0.packet_id ≡ (h_dpd_hash murmur3 src dst payload).1)
      × ((h_dpd_hash murmur3 src dst payload).1 < 2 ^ 64)
unfolding h_dpd_hash hash_input
h_dpd_hash_lem murmur3 src dst payload payload' e =
    (cc (e, take-min-length 64 payload, take-min-length 64 payload'), refl, omega arith)

-- The accumulator and the digits come back from the number.
from_be-injective :
    (a b : ℕ) (xs ys : Bytes)
    → length xs ≡ length ys
    → All (λ b. b < 256) xs
    → All (λ b. b < 256) ys
    → foldl (λ acc b. acc * 256 + b) a xs ≡ foldl (λ acc b. acc * 256 + b) b ys
    → (a ≡ b) × (xs ≡ ys)
from_be-injective a b [] [] l p q e = (e, refl)
from_be-injective a b [] (y ∷ ys) l p q e = absurd (omega arith)
from_be-injective a b (x ∷ xs) [] l p q e = absurd (omega arith)
from_be-injective a b (x ∷ xs) (y ∷ ys) l (p, ps) (q, qs) e =
    let (here, later) = from_be-injective (a * 256 + x) (b * 256 + y) xs ys (omega arith) ps qs e in
    (omega arith, ap₂ (λ (x : ℕ) (xs : Bytes). x ∷ xs) (omega arith) later)

All-append :
    (xs ys : Bytes) → All (λ b. b < 256) xs → All (λ b. b < 256) ys → All (λ b. b < 256) (xs ++ ys)
All-append [] ys p q = q
All-append (x ∷ xs) ys (p, ps) q = (p, All-append xs ys ps q)

zeros-All : (n m : ℕ) → All (λ b. b < 256) (drop n (replicate m 0))
zeros-All zero zero = tt
zeros-All zero (suc m) = (omega arith, zeros-All zero m)
zeros-All (suc n) zero = tt
zeros-All (suc n) (suc m) = zeros-All n m

drop-replicate :
    (n m : ℕ) → n < m → drop {A = ℕ} n (replicate m 0) ≡ 0 ∷ drop (suc n) (replicate m 0)
drop-replicate n zero h = absurd (omega arith)
drop-replicate zero (suc m) h = refl
drop-replicate (suc n) (suc m) h = drop-replicate n m (omega arith)

abbrev zeros_from : ℕ → Bytes
zeros_from n = drop n (replicate 8 0)

-- A short identifier is followed by zeros.
bytes_to_u64-short :
    (xs : Bytes) → length xs ≤ 8 → bytes_to_u64 xs ≡ from_be (xs ++ zeros_from (length xs))
unfolding bytes_to_u64
bytes_to_u64-short xs h = let e : min 8 (length xs) ≡ length xs = omega arith in rw (e, take_self)

append_cancel : (xs ys zs : Bytes) → length xs ≡ length ys → xs ++ zs ≡ ys ++ zs → xs ≡ ys
append_cancel xs ys zs l e = sym (take-append_self xs zs) ∙ ap₂ take l e ∙ take-append_self ys zs

bytes_to_u64-injective :
    (xs ys : Bytes)
    → length xs ≤ 8
    → length xs ≡ length ys
    → All (λ b. b < 256) xs
    → All (λ b. b < 256) ys
    → bytes_to_u64 xs ≡ bytes_to_u64 ys
    → xs ≡ ys
bytes_to_u64-injective xs ys short l p q e =
    let zs = zeros_from (length xs) in
    let ey : bytes_to_u64 ys ≡ from_be (ys ++ zs) = rw l (bytes_to_u64-short ys (omega arith)) in
    let both : from_be (xs ++ zs) ≡ from_be (ys ++ zs) =
      sym (bytes_to_u64-short xs short) ∙ e ∙ ey in
    let same =
      from_be-injective 0 0 (xs ++ zs) (ys ++ zs)
        (omega (arith, length-append xs zs, length-append ys zs))
        (All-append xs zs p (zeros-All (length xs) 8))
        (All-append ys zs q (zeros-All (length xs) 8)) both in
    append_cancel xs ys zs l same.1

bytes_to_u64-zero : (xs : Bytes) → length xs < 8 → bytes_to_u64 (xs ++ 0 ∷ []) ≡ bytes_to_u64 xs
bytes_to_u64-zero xs h =
    let n : length (xs ++ 0 ∷ []) ≡ suc (length xs) = omega (arith, length-append xs (0 ∷ [])) in
    let zs : 0 ∷ zeros_from (suc (length xs)) ≡ zeros_from (length xs) =
      sym (drop-replicate (length xs) 8 h) in
    bytes_to_u64-short (xs ++ 0 ∷ []) (omega arith)
    ∙ ap from_be {x = (xs ++ 0 ∷ []) ++ zeros_from (length (xs ++ 0 ∷ []))}
        (rw n (append_assoc xs (0 ∷ []) (zeros_from (suc (length xs)))) ∙ ap (λ t. xs ++ t) zs)
    ∙ sym (bytes_to_u64-short xs (omega arith))

-- A zero byte behind an identifier of fewer than 8 bytes does not change the key of its packet: two
-- identifiers of different lengths share it.
pub i_dpd_packet_id-zero :
    (src dst : IpAddr) (o : SmfDpdOption)
    → length o.identifier < 8
    → i_dpd_packet_id_from_option src dst (record o { identifier = o.identifier ++ 0 ∷ [] })
      ≡ i_dpd_packet_id_from_option src dst o
unfolding i_dpd_packet_id_from_option
i_dpd_packet_id-zero src dst o h = ap (key_of src dst) (bytes_to_u64-zero o.identifier h)

-- Identifiers of the same length, of up to 8 bytes, have the same number exactly if they are the
-- same.
pub bytes_to_u64_iff :
    (xs ys : Bytes)
    → length xs ≤ 8
    → length xs ≡ length ys
    → All (λ b. b < 256) xs
    → All (λ b. b < 256) ys
    → (bytes_to_u64 xs ≡ bytes_to_u64 ys) ↔ (xs ≡ ys)
bytes_to_u64_iff xs ys short l p q = (bytes_to_u64-injective xs ys short l p q, ap bytes_to_u64)
