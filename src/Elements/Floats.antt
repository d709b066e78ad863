-- ===== src/Elements/Floats.antt =====
-- What the control and power elements use of floats: the operators of `float`, `powf` and the
-- other functions of the library, and the constants of the code.
use logic_elements.Base.{ℕ, Bool}
use logic_elements.Base.Int.{ℤ}

-- `f_root` is `sqrtf`, `f_angle` is `atan2f`, and `f_coefficient n i` the value of
-- `(float)(2.0 / n * cos(2.0 * M_PI / n * i))`. `f_decimal n k` is the float nearest to n / 10 ^ k, and `f_count` a number as a float.
pub record Floats (F : Type 0) : Type 0 where
  pub f_decimal : ℕ → ℕ → F
  pub f_count : ℕ → F
  pub f_add : F → F → F
  pub f_subtract : F → F → F
  pub f_multiply : F → F → F
  pub f_divide : F → F → F
  pub f_power : F → F → F
  pub f_negate : F → F
  pub f_root : F → F
  pub f_cosine : F → F
  pub f_sine : F → F
  pub f_angle : F → F → F
  pub f_less : F → F → Bool
  pub f_equal : F → F → Bool
  pub f_seconds : ℤ → F
  pub f_coefficient : ℕ → ℕ → F

-- `a > b`
abbrev pub f_greater : {F : Type 0} → Floats F → F → F → Bool
f_greater ops a b = ops.f_less b a
