-- ===== src/Base/Decimal.antt =====
-- Numbers in decimal.
use rxiu.Base.Tests.{if◌then◌else◌, ltb}
use rxiu.Base.Text.{Str}
use Prim.Native.Nat.{ℕ, zero, suc, ◌+◌, ◌/◌, ◌%◌}
use mathlib.Core.List.{[], ◌∷◌, ◌++◌}

-- A u64 in decimal, which has at most 20 digits.
unfoldable pub digits : ℕ → ℕ → Str
digits zero n = []
digits (suc fuel) n =
    let rest = digits fuel (n / 10) in
    if ltb n 10 then (48 + n) ∷ [] else rest ++ (48 + n % 10) ∷ []

unfoldable pub format_u64 : ℕ → Str
unfolding digits
format_u64 n = digits 20 n
