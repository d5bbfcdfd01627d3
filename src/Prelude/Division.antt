-- ===== src/Prelude/Division.antt =====
-- Division with remainder: what the position arithmetic of the drivers needs.
use Prim.Native.Nat.{ℕ, ◌+◌, ◌*◌, ◌/◌, ◌%◌, ◌<◌}
use mathlib.Core.Path.{◌≡◌}
use native.Mathlib.Omega.{arith}

-- A quotient and a remainder below the divisor are the only ones.
pub div_mod_unique : (n m i r : ℕ) → n ≡ i * m + r → r < m → (n / m ≡ i) × (n % m ≡ r)
div_mod_unique n m i r e h = (grind arith, grind arith)

-- The remainder by a product holds less than that many quanta.
pub div-lt_of_mod : (n q s : ℕ) → 0 < q → 0 < s → n % (q * s) / q < s
div-lt_of_mod n q s hq hs = grind arith
