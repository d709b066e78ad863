-- ===== src/Base/Decimal.antt =====
-- Numbers as text: the bytes that `std::to_string` gives.
use logic_elements.Base.Tests.{ltb, if◌then◌else◌}
use Prim.Native.Nat.{ℕ, zero, suc, ◌+◌, ◌/◌, ◌%◌}
use mathlib.Core.List.{List, [], ◌∷◌, ◌++◌}

-- The decimal digits of a number, with fuel for a digit per unit.
unfoldable pub decimal_loop : ℕ → ℕ → List ℕ
decimal_loop zero n = (48 + n) ∷ []
decimal_loop (suc fuel) n =
    let front = decimal_loop fuel (n / 10) in
    if ltb n 10 then (48 + n) ∷ [] else front ++ (48 + n % 10) ∷ []

abbrev pub decimal : ℕ → List ℕ
decimal n = decimal_loop n n
