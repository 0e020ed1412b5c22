-- ===== src/Prelude/Division.antt =====
-- Quotients of neighbours.
use Prim.Native.Nat.{ℕ, ◌+◌, ◌/◌, ◌%◌, ◌<◌}
use mathlib.Core.Path.{◌≡◌}
use mathlib.Core.Logic.{◌≢◌}
use native.Mathlib.Nat.{mod-lt, div-add-mod}
use native.Mathlib.Omega.{arith}

pub div_same : (i b : ℕ) → 0 < b → (i + 1) % b ≢ 0 → (i + 1) / b ≡ i / b
div_same i b h k =
    grind (arith, div-add-mod (i + 1) b, div-add-mod i b, mod-lt (i + 1) h, mod-lt i h)

pub div_next : (i b : ℕ) → 0 < b → (i + 1) % b ≡ 0 → (i + 1) / b ≡ i / b + 1
div_next i b h k =
    grind (arith, div-add-mod (i + 1) b, div-add-mod i b, mod-lt (i + 1) h, mod-lt i h)
