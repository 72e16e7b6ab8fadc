-- ===== src/Common/Utf8.antt =====
-- `std::str::from_utf8`, as a machine over the bytes.
use Prim.Native.Nat.{ℕ, zero, suc}
use mathlib.Core.Bool.{Bool, true, false, ◌&&◌}
use mathlib.Core.List.{[], ◌∷◌}
use mathlib.Core.Option.{Option, none, some}
use dhcp_relay_agent.Common.Tests.{leb, ltb, nat_eq, ◌==◌, if◌then◌else◌}
use dhcp_relay_agent.Common.Encoding.{Bytes}

-- Between characters, or in one: the next byte lies between two bounds, and further continuation
-- bytes follow it.
pub data Utf8State : Type 0 where
  start : Utf8State
  inside : (lo hi further : ℕ) → Utf8State

abbrev pub in_range : ℕ → ℕ → ℕ → Bool
in_range lo hi b = leb lo b && leb b hi

-- What may follow the first byte of a character.
unfoldable pub lead : ℕ → Option Utf8State
lead b =
    if ltb b 0x80
    then some start
    else if in_range 0xc2 0xdf b
    then some (inside 0x80 0xbf 0)
    else if b == 0xe0
    then some (inside 0xa0 0xbf 1)
    else if b == 0xed
    then some (inside 0x80 0x9f 1)
    else if in_range 0xe1 0xef b
    then some (inside 0x80 0xbf 1)
    else if b == 0xf0
    then some (inside 0x90 0xbf 2)
    else if in_range 0xf1 0xf3 b
    then some (inside 0x80 0xbf 2)
    else if b == 0xf4
    then some (inside 0x80 0x8f 2)
    else none

abbrev pub later : ℕ → Utf8State
later zero = start
later (suc n) = inside 0x80 0xbf n

unfoldable pub next : Utf8State → ℕ → Option Utf8State
unfolding lead
next start b = lead b
next (inside lo hi further) b = if in_range lo hi b then some (later further) else none

unfoldable pub utf8_from : Option Utf8State → Bytes → Bool
utf8_from none bytes = false
utf8_from (some start) [] = true
utf8_from (some (inside lo hi further)) [] = false
utf8_from (some s) (b ∷ bs) = utf8_from (next s b) bs

-- The bytes as a text, if they are one.
unfoldable pub from_utf8 : Bytes → Option Bytes
unfolding utf8_from next
from_utf8 bytes = if utf8_from (some start) bytes then some bytes else none

abbrev pub from_utf8_or_empty : Bytes → Bytes
from_utf8_or_empty bytes = if utf8_from (some start) bytes then bytes else []
