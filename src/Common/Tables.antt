-- ===== src/Common/Tables.antt =====
-- Facts about all small numbers, by evaluation.
use Prim.Native.Nat.{ℕ, zero, suc, ◌<◌}
use mathlib.Core.Path.{◌≡◌, ap}
use mathlib.Core.Bool.{Bool, true, ◌&&◌}
use native.Mathlib.Omega.{arith}
use dhcp_relay_agent.Common.Tests.{◌==◌, nat_eq, nat_beq_iff}

-- Two functions have the same value at each of the first numbers.
unfoldable pub same_below : (ℕ → ℕ) → (ℕ → ℕ) → ℕ → Bool
same_below f g zero = true
same_below f g (suc top) = let below = same_below f g top in below && f top == g top

pub table_entry : (top : ℕ) (f g : ℕ → ℕ) (x : ℕ) → same_below f g top ≡ true → x < top → f x ≡ g x
unfolding same_below
table_entry zero f g x same under = absurd (omega arith)
table_entry (suc top) f g x same under = ground (
  arith,
  nat_beq_iff (f top) (g top),
  table_entry top f g x,
  λ (e : x ≡ top). ap f e,
  λ (e : x ≡ top). ap g e,
)
