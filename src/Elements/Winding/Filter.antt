-- ===== src/Elements/Winding/Filter.antt =====
-- The filter of a winding, over the history of its readings.
use native.Mathlib.Nat.{mod-eq_of_lt, mod-eq-sub-mod}
use logic_elements.Base.{
  ℕ, zero, suc, ◌+◌, ◌-◌, ◌/◌, ◌%◌, ◌<◌, ◌≤◌, ◌≡◌, refl, sym, ap, ap₂, ◌∙◌, List, [], ◌∷◌, Option,
  none, some, get_or, take, replicate, length, length-set, arith, ◌>>=◌, length-replicate, set_get,
  ◌^◌,
}
use logic_elements.Base.Ring.{window, window_whole, get_or-window, window-replicate}
use logic_elements.Elements.Floats.{Floats}
use logic_elements.Elements.Winding.{
  Winding, Reading, winding, winding_update, filter_loop, sample, zero_value,
}

module _ {F : Type 0} (ops : Floats F) (n : ℕ) where
  -- The samples of the last cycle, newest first. Where no sample is connected, the oldest one takes
  -- the place of the newest.
  abbrev pub cycle : List (Reading F) → List F
  cycle [] = replicate n (zero_value ops)
  cycle ((some x, a, b) ∷ older) = x ∷ take (n - 1) (cycle older)
  cycle ((none, a, b) ∷ older) =
      get_or (cycle older) (n - 1) (zero_value ops) ∷ take (n - 1) (cycle older)

  -- The sum of the samples, each times the coefficient of its age.
  abbrev pub weighted : List F → ℕ → F → F
  weighted [] i sum = sum
  weighted (x ∷ xs) i sum =
      weighted xs (i + 1) (ops.f_add sum (ops.f_multiply x (ops.f_coefficient n i)))

  abbrev pub filtered : List (Reading F) → F
  filtered history = weighted (cycle history) 0 (zero_value ops)

  -- The filtered values of the last cycle, newest first.
  abbrev pub filtered_cycle : List (Reading F) → List F
  filtered_cycle [] = replicate n (zero_value ops)
  filtered_cycle (u ∷ older) = filtered (u ∷ older) ∷ take (n - 1) (filtered_cycle older)

  -- A winding after a history of updates, the newest first.
  abbrev pub run_winding : List (Reading F) → Option (Winding F)
  run_winding [] = some (winding ops n)
  run_winding (u ∷ older) = do r ← run_winding older; winding_update ops r u

  -- The two outputs before the reference.
  abbrev pub phasor : List (Reading F) → F × F
  phasor history = (
    get_or (filtered_cycle history) 0 (zero_value ops),
    ops.f_negate (get_or (filtered_cycle history) (n / 4) (zero_value ops)),
  )

  pub record Holds (history : List (Reading F)) (r : Winding F) : Type 0 where
    pub size : r.samples_per_cycle ≡ n
    pub write_lt : r.write < n
    pub quarter_eq : r.quarter_cycle ≡ (r.write + n / 4) % n
    pub raw_length : length r.raw_values ≡ n
    pub filtered_length : length r.raw_filtered_values ≡ n
    pub coefficients_eq : r.coefficients ≡ ops.f_coefficient n
    pub raw_eq : window n (zero_value ops) r.raw_values (suc r.write) n ≡ cycle history
    pub filtered_eq :
        window n (zero_value ops) r.raw_filtered_values (suc r.write) n ≡ filtered_cycle history

  -- The loop over a window of the samples.
  pub filter_loop-weighted :
      (r : Winding F) (left i : ℕ) (sum : F)
      → r.samples_per_cycle ≡ n
      → r.coefficients ≡ ops.f_coefficient n
      → filter_loop ops r left i sum
        ≡ weighted (window n (zero_value ops) r.raw_values (r.write + i) left) i sum
  unfolding filter_loop window
  filter_loop-weighted r zero i sum size coefs = refl
  filter_loop-weighted r (suc left) i sum size coefs =
      let raw = r.raw_values in
      let z = zero_value ops in
      let terms : (m : ℕ) → (ℕ → F) → F =
        λ m c. ops.f_add sum (ops.f_multiply (get_or raw ((r.write + i) % m) z) (c i)) in
      filter_loop-weighted r left (i + 1) (terms r.samples_per_cycle r.coefficients) size coefs
      ∙ ap₂ (λ (w : ℕ) (x : F). weighted (window n z raw w left) (i + 1) x) {y = suc (r.write + i)}
          (omega arith) (ap₂ terms size coefs)

  module _ (large : 4 ≤ n) (small : n < 2 ^ 16) where
    start_quarter : (n / 4 + 65536 - 1) % 65536 ≡ ((n + 65536 - 1) % 65536 + n / 4) % n
    start_quarter =
        let first : (n + 65536 - 1) % 65536 ≡ n - 1 = omega arith in
        let quarter : (n / 4 + 65536 - 1) % 65536 ≡ n / 4 - 1 = omega arith in
        quarter
        ∙ sym (mod-eq_of_lt {n = n / 4 - 1} {m = n} (omega arith))
        ∙ ap (λ (i : ℕ). i % n) {y = n - 1 + n / 4 - n} (omega arith)
        ∙ sym (mod-eq-sub-mod {n = n - 1 + n / 4} {m = n} (omega arith))
        ∙ ap (λ (i : ℕ). (i + n / 4) % n) (sym first)

    pub start-Holds : Holds [] (winding ops n)
    start-Holds = record {
      size = refl;
      write_lt = omega arith;
      quarter_eq = start_quarter;
      raw_length = length-replicate n (zero_value ops);
      filtered_length = length-replicate n (zero_value ops);
      coefficients_eq = refl;
      raw_eq = window-replicate n (zero_value ops) n _ n;
      filtered_eq = window-replicate n (zero_value ops) n _ n;
    }

    -- The samples, with the newest at the write index.
    pub sample-cycle :
        (older : List (Reading F)) (r : Winding F) (x a b : Option F)
        → Holds older r
        → window n (zero_value ops) (sample ops r x).raw_values r.write n
          ≡ cycle ((x, a, b) ∷ older)
    unfolding sample
    sample-cycle older r (some x) a b h =
        window_whole n (zero_value ops) r.raw_values r.write x h.raw_length h.write_lt
        ∙ ap (λ (l : List F). x ∷ take (n - 1) l) h.raw_eq
    sample-cycle older r none a b h =
        let z = zero_value ops in
        let last : get_or (cycle older) (n - 1) z ≡ get_or r.raw_values r.write z =
          ap (λ (l : List F). get_or l (n - 1) z) (sym h.raw_eq)
          ∙ get_or-window n z r.raw_values (suc r.write) n (n - 1) (omega arith)
          ∙ ap (λ (i : ℕ). get_or r.raw_values i z)
              (ap (λ (i : ℕ). i % n) {y = r.write + n} (omega arith)
                ∙ mod-eq-sub-mod {n = r.write + n} {m = n} (omega arith)
                ∙ ap (λ (i : ℕ). i % n) {y = r.write} (omega arith)
                ∙ mod-eq_of_lt h.write_lt) in
        ap (λ (l : List F). window n z l r.write n)
          (sym (set_get r.raw_values r.write z (omega (arith, h.raw_length, h.write_lt))))
        ∙ window_whole n z r.raw_values r.write (get_or r.raw_values r.write z) h.raw_length
            h.write_lt
        ∙ ap₂ (λ (x : F) (l : List F). x ∷ take (n - 1) l) (sym last) h.raw_eq

    pub sample-length :
        (r : Winding F) (x : Option F) → length (sample ops r x).raw_values ≡ length r.raw_values
    unfolding sample
    sample-length r none = refl
    sample-length r (some x) = length-set r.raw_values r.write x
