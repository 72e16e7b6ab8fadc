-- ===== src/Common/Encoding.antt =====
-- Bytes and texts. A Rust `String` is its UTF-8 bytes, so both are lists of numbers below 256.
use Prim.Native.Nat.{ℕ, ◌/◌, ◌%◌, ◌*◌, ◌+◌}
use Prim.Native.Char.{code}
use Prim.Native.String.{String}
use mathlib.Core.List.{List, [], ◌∷◌}

abbrev pub Bytes : Type 0
Bytes = List ℕ

-- The bytes of an ASCII literal.
abbrev pub ascii : String → Bytes
ascii String.[] = []
ascii (String.◌∷◌ c s) = code c ∷ ascii s

-- `u16::to_be_bytes` of a number below 2 ^ 16, and `u16::from_be_bytes`.
abbrev pub to_be16 : ℕ → Bytes
to_be16 n = n / 256 ∷ n % 256 ∷ []

abbrev pub from_be16 : ℕ → ℕ → ℕ
from_be16 hi lo = hi * 256 + lo
