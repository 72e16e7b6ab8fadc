-- ===== src/Transport.antt =====
-- transport/udp.rs: the UDP transport. The operating system's sockets are a parameter: what a bind
-- gives may depend on the addresses that were bound before, and a receive writes a datagram to the
-- front of the buffer, as much of it as the buffer holds.
use dhcp_relay_agent.Common.{
  ℕ, zero, suc, ◌≡◌, refl, ap, List, [], ◌∷◌, ◌++◌, Bytes, Result, ok, err, length, take, replicate,
  min, arith, Result-cases, inl, inr, ◌∙◌,
}
use native.Mathlib.Numerals.{unary_clauses}
use dhcp_relay_agent.Net.{SocketAddr}
use dhcp_relay_agent.Error.{Text}

-- What `UdpSocket::bind` answers, given the earlier binds and an address: a socket, which is
-- known by its `local_addr()`.
abbrev pub Sockets : Type 0
Sockets = List SocketAddr → SocketAddr → Result Text (Result Text SocketAddr)

pub record UdpTransport : Type 0 where
  pub local_addr : Result Text SocketAddr
  pub buf : Bytes

unfoldable pub buf_len : ℕ
buf_len = 65535

abbrev with_buffer : Result Text (Result Text SocketAddr) → Result Text UdpTransport
with_buffer (ok socket) = ok (record { local_addr = socket; buf = replicate buf_len 0 })
with_buffer (err e) = err e

-- `UdpTransport::bind`
unfoldable pub bind : Sockets → List SocketAddr → SocketAddr → Result Text UdpTransport
bind sockets earlier addr = with_buffer (sockets earlier addr)

-- The buffer after a datagram was written to its front.
abbrev overwritten : Bytes → Bytes → Bytes
overwritten [] datagram = []
overwritten (b ∷ buf) [] = b ∷ buf
overwritten (b ∷ buf) (x ∷ datagram) = x ∷ overwritten buf datagram

-- `UdpTransport::recv_from`, given what the socket receives: `self.buf[..len].to_vec()`.
unfoldable pub recv_from :
    Result Text (Bytes × SocketAddr)
    → UdpTransport
    → Result Text (Bytes × SocketAddr) × UdpTransport
recv_from (err e) t = (err e, t)
recv_from (ok (datagram, src)) t =
    let buf = overwritten t.buf datagram in
    let len = min (length datagram) (length t.buf) in
    (ok (take len buf, src), record t { buf = buf })

-- `UdpTransport::send_to`: what was sent, with its destination, in order.
abbrev pub send_to : Bytes → SocketAddr → List (Bytes × SocketAddr) → List (Bytes × SocketAddr)
send_to buf dst sent = sent ++ (buf, dst) ∷ []

take-overwritten :
    (buf datagram : Bytes)
    → take (min (length datagram) (length buf)) (overwritten buf datagram)
      ≡ take (length buf) datagram
take-overwritten [] datagram =
    ap (λ n. take n []) {x = min (length datagram) 0} {y = 0} (omega arith)
take-overwritten (b ∷ buf) [] =
    ap (λ n. take n (b ∷ buf)) {x = min 0 (suc (length buf))} {y = 0} (omega arith)
take-overwritten (b ∷ buf) (x ∷ datagram) =
    simp unary_clauses (ap (λ t. x ∷ t) (take-overwritten buf datagram))

length-overwritten : (buf datagram : Bytes) → length (overwritten buf datagram) ≡ length buf
length-overwritten [] datagram = refl
length-overwritten (b ∷ buf) [] = refl
length-overwritten (b ∷ buf) (x ∷ datagram) = ap suc (length-overwritten buf datagram)

-- A transport that has received any datagrams since it was bound.
pub data HasReceived (first : UdpTransport) : UdpTransport → Type 0 where
  none_yet : HasReceived first first
  one_more :
      {t : UdpTransport} (r : Result Text (Bytes × SocketAddr))
      → HasReceived first t
      → HasReceived first (recv_from r t).1

length-HasReceived :
    (first : UdpTransport) {t : UdpTransport}
    → HasReceived first t
    → length t.buf ≡ length first.buf
unfolding recv_from
length-HasReceived first none_yet = refl
length-HasReceived first (one_more {t} (ok (datagram, src)) h) =
    omega (arith, length-overwritten t.buf datagram, length-HasReceived first h)
length-HasReceived first (one_more (err e) h) = length-HasReceived first h

length-replicate : (n b : ℕ) → length (replicate n b) ≡ n
length-replicate zero b = refl
length-replicate (suc n) b = ap suc (length-replicate n b)

length-bind :
    (sockets : Sockets) (earlier : List SocketAddr) (addr : SocketAddr) (t : UdpTransport)
    → bind sockets earlier addr ≡ ok t
    → length t.buf ≡ buf_len
unfolding bind
length-bind sockets earlier addr t e = elim (Result-cases (sockets earlier addr)) [
  | inl (socket, h) ↦ ground (arith, h, e, length-replicate buf_len 0)
  | inr (x, h) ↦ ground (arith, h, e)
]

-- Whatever a transport has received since it was bound, the next datagram is returned with its
-- source and without any byte of an earlier one: the whole of it, or its first 65535 bytes if it is
-- longer.
pub recv_from-bind :
    (sockets : Sockets) (earlier : List SocketAddr) (addr : SocketAddr) (first t : UdpTransport)
    (datagram : Bytes) (src : SocketAddr)
    → bind sockets earlier addr ≡ ok first
    → HasReceived first t
    → (recv_from (ok (datagram, src)) t).0 ≡ ok (take buf_len datagram, src)
unfolding recv_from
recv_from-bind sockets earlier addr first t datagram src e h =
    ap (λ bytes. ok (bytes, src))
      (take-overwritten t.buf datagram
        ∙ ap (λ n. take n datagram)
            (length-HasReceived first h ∙ length-bind sockets earlier addr first e))
