-- ===== src/Elements/Winding.antt =====
-- src/LogicElements/src/Elements/Power/le_Analog1PWinding.cpp and its header, without
-- LE_ELEMENTS_ANALOG_COMPLEX: the phasor of one winding, by a cosine filter over a cycle of samples.
pub mod Filter
pub mod Phasor
use logic_elements.Base.{
  ℕ, zero, suc, ◌+◌, ◌-◌, ◌/◌, ◌%◌, ◌^◌, List, Option, none, some, get_or, get_elem?, set,
  replicate, ◌>>=◌,
}
use logic_elements.Elements.Floats.{Floats}

-- The fields of `Analog1PWinding`, with the values of its two output ports. `coefficients` gives the
-- filter's coefficient at an index.
pub record Winding (F : Type 0) : Type 0 where
  pub samples_per_cycle : ℕ
  pub write : ℕ
  pub quarter_cycle : ℕ
  pub raw_values : List F
  pub raw_filtered_values : List F
  pub coefficients : ℕ → F
  pub real : F
  pub imaginary : F

-- The readings of an update: the sample, and the two parts of the reference.
abbrev pub Reading : Type 0 → Type 0
Reading F = Option F × Option F × Option F

module _ {F : Type 0} (ops : Floats F) where
  abbrev pub zero_value : F
  zero_value = ops.f_decimal 0 0

  -- The constructor.
  abbrev pub winding : ℕ → Winding F
  winding n = record {
    samples_per_cycle = n;
    write = (n + 2 ^ 16 - 1) % 2 ^ 16;
    quarter_cycle = (n / 4 + 2 ^ 16 - 1) % 2 ^ 16;
    raw_values = replicate n zero_value;
    raw_filtered_values = replicate n zero_value;
    coefficients = ops.f_coefficient n;
    real = zero_value;
    imaginary = zero_value;
  }

  -- The loop of `ApplyCosineFilter`, with the rounds left.
  unfoldable pub filter_loop : Winding F → ℕ → ℕ → F → F
  filter_loop r zero i sum = sum
  filter_loop r (suc left) i sum =
      let raw = get_or r.raw_values ((r.write + i) % r.samples_per_cycle) zero_value in
      filter_loop r left (i + 1) (ops.f_add sum (ops.f_multiply raw (r.coefficients i)))

  unfoldable pub sample : Winding F → Option F → Winding F
  sample r none = r
  sample r (some raw) = record r { raw_values = set r.raw_values r.write raw }

  -- `ApplyCosineFilter`
  unfoldable pub apply_cosine_filter : Winding F → Option F → Winding F
  apply_cosine_filter r raw =
      let sampled = sample r raw in
      let sum = filter_loop sampled r.samples_per_cycle 0 zero_value in
      record sampled { raw_filtered_values = set sampled.raw_filtered_values sampled.write sum }

  -- `CalculatePhasor`; `none` is a read outside the values.
  unfoldable pub calculate_phasor : Winding F → Option (Winding F)
  calculate_phasor r = do
    real ← get_elem? r.raw_filtered_values r.write
    quarter ← get_elem? r.raw_filtered_values r.quarter_cycle
    some (record r { real = real; imaginary = ops.f_negate quarter })

  -- `AdjustOutputAngleWithReference`, on the two outputs.
  unfoldable pub rotate : F × F → Option F → Option F → F × F
  rotate (real, imaginary) (some ref_real) (some ref_imaginary) =
      let magnitude =
        ops.f_root (ops.f_add (ops.f_multiply real real) (ops.f_multiply imaginary imaginary)) in
      let angle =
        ops.f_subtract (ops.f_angle imaginary real) (ops.f_angle ref_imaginary ref_real) in
      (ops.f_multiply magnitude (ops.f_cosine angle), ops.f_multiply magnitude (ops.f_sine angle))
  rotate outputs _ _ = outputs

  abbrev pub adjust_output_angle : Winding F → Option F → Option F → Winding F
  adjust_output_angle r ref_real ref_imaginary =
      let outputs = rotate (r.real, r.imaginary) ref_real ref_imaginary in
      record r { real = outputs.0; imaginary = outputs.1 }

  -- The end of `Update`.
  abbrev pub shift : Winding F → Winding F
  shift r = record r {
    write = (r.write + r.samples_per_cycle - 1) % r.samples_per_cycle;
    quarter_cycle = (r.quarter_cycle + r.samples_per_cycle - 1) % r.samples_per_cycle;
  }

  -- `Update`
  unfoldable pub winding_update : Winding F → Reading F → Option (Winding F)
  winding_update r (raw, ref_real, ref_imaginary) = do
    phasor ← calculate_phasor (apply_cosine_filter r raw)
    some (shift (adjust_output_angle phasor ref_real ref_imaginary))
