-- ===== src/Elements/Winding/Phasor.antt =====
-- The outputs of a winding after a history of updates.
use native.Mathlib.Nat.{mod-lt, mod-eq_of_lt, mod-add-mod}
use logic_elements.Base.{
  ℕ, suc, ◌+◌, ◌-◌, ◌/◌, ◌%◌, ◌<◌, ◌≤◌, ◌≡◌, refl, sym, ap, ap₂, ◌∙◌, List, [], ◌∷◌, Option, none,
  some, get_or, get_elem?, set, take, length, length-set, arith, ◌>>=◌, get_elem?_lt, ◌^◌,
}
use logic_elements.Base.Ring.{window, window_cong, suc_back, window_whole, get_or-window}
use logic_elements.Elements.Floats.{Floats}
use logic_elements.Elements.Winding.{
  Winding, Reading, winding, winding_update, apply_cosine_filter, calculate_phasor, filter_loop,
  sample, rotate, adjust_output_angle, shift, zero_value,
}
use logic_elements.Elements.Winding.Filter.{
  weighted, filtered, filtered_cycle, run_winding, phasor, Holds, filter_loop-weighted, start-Holds,
  sample-cycle, sample-length,
}

module _ {F : Type 0} (ops : Floats F) (n : ℕ) (large : 4 ≤ n) (small : n < 2 ^ 16) where
  -- A winding with its samples replaced.
  abbrev with_raw : Winding F → List F → Winding F
  with_raw r raw = record r { raw_values = raw }

  sample_raw :
      (r : Winding F) (x : Option F) → sample ops r x ≡ with_raw r (sample ops r x).raw_values
  unfolding sample
  sample_raw r none = refl
  sample_raw r (some x) = refl

  -- What the loop computes.
  sampled-filtered :
      (older : List (Reading F)) (r : Winding F) (u : Reading F)
      → Holds ops n older r
      → filter_loop ops
          (with_raw r (sample ops r u.0).raw_values)
          r.samples_per_cycle
          0
          (zero_value ops)
        ≡ filtered ops n (u ∷ older)
  sampled-filtered older r (x, a, b) h =
      let z = zero_value ops in
      let raw = (sample ops r x).raw_values in
      filter_loop-weighted ops n (with_raw r raw) r.samples_per_cycle 0 z h.size h.coefficients_eq
      ∙ ap₂ (λ (w m : ℕ). weighted ops n (window n z raw w m) 0 z) {y = r.write} (omega arith)
          h.size
      ∙ ap (λ (l : List F). weighted ops n l 0 z) (sample-cycle ops n large small older r x a b h)

  -- The winding after the filter, and after the whole update.
  abbrev with_filtered : List (Reading F) → Winding F → Reading F → Winding F
  with_filtered older r u = record r {
    raw_values = (sample ops r u.0).raw_values;
    raw_filtered_values = set r.raw_filtered_values r.write (filtered ops n (u ∷ older));
  }

  filter_eq :
      (older : List (Reading F)) (r : Winding F) (u : Reading F)
      → Holds ops n older r
      → apply_cosine_filter ops r u.0 ≡ with_filtered older r u
  unfolding apply_cosine_filter
  filter_eq older r u h =
      ap
        (λ (s : Winding F). record s {
          raw_filtered_values =
              set s.raw_filtered_values s.write
                (filter_loop ops s r.samples_per_cycle 0 (zero_value ops));
        })
        (sample_raw r u.0)
      ∙ ap
          (λ (y : F). record (with_raw r (sample ops r u.0).raw_values) {
            raw_filtered_values = set r.raw_filtered_values r.write y;
          })
          (sampled-filtered older r u h)

  -- The filtered values, from the write index on.
  filtered_window :
      (older : List (Reading F)) (r : Winding F) (u : Reading F)
      → Holds ops n older r
      → window n (zero_value ops) (with_filtered older r u).raw_filtered_values r.write n
        ≡ filtered_cycle ops n (u ∷ older)
  filtered_window older r u h =
      window_whole n (zero_value ops) r.raw_filtered_values r.write (filtered ops n (u ∷ older))
        h.filtered_length h.write_lt
      ∙ ap (λ (l : List F). filtered ops n (u ∷ older) ∷ take (n - 1) l) h.filtered_eq

  -- A filtered value of the cycle, by its age.
  filtered_at :
      (older : List (Reading F)) (r : Winding F) (u : Reading F) (k i : ℕ)
      → Holds ops n older r
      → k < n
      → i ≡ (r.write + k) % n
      → get_elem? (with_filtered older r u).raw_filtered_values i
        ≡ some (get_or (filtered_cycle ops n (u ∷ older)) k (zero_value ops))
  filtered_at older r u k i h lt at =
      let z = zero_value ops in
      let values = (with_filtered older r u).raw_filtered_values in
      let size : length values ≡ n =
        length-set r.raw_filtered_values r.write (filtered ops n (u ∷ older)) ∙ h.filtered_length in
      get_elem?_lt values i z (omega (arith, size, at, mod-lt (r.write + k) {m = n} (omega arith)))
      ∙ ap some (
          ap (λ (j : ℕ). get_or values j z) at
          ∙ sym (get_or-window n z values r.write n k lt)
          ∙ ap (λ (l : List F). get_or l k z) (filtered_window older r u h))

  phasor_eq :
      (older : List (Reading F)) (r : Winding F) (u : Reading F)
      → Holds ops n older r
      → let p = phasor ops n (u ∷ older) in
        calculate_phasor ops (with_filtered older r u)
        ≡ some (record (with_filtered older r u) { real = p.0; imaginary = p.1 })
  unfolding calculate_phasor
  phasor_eq older r u h =
      let first : r.write ≡ (r.write + 0) % n =
        sym (ap (λ (i : ℕ). i % n) {y = r.write} (omega arith) ∙ mod-eq_of_lt h.write_lt) in
      rw
        (
          filtered_at older r u 0 r.write h (omega arith) first,
          filtered_at older r u (n / 4) r.quarter_cycle h (omega arith) h.quarter_eq,
        )
        refl

  -- The indexes go down together.
  quarter_back :
      (w q : ℕ) → q ≡ (w + n / 4) % n → w < n → (q + n - 1) % n ≡ ((w + n - 1) % n + n / 4) % n
  quarter_back w q e h =
      ap (λ (i : ℕ). (i + n - 1) % n) e
      ∙ ap (λ (i : ℕ). i % n) {y = (w + n / 4) % n + (n - 1)} (omega arith)
      ∙ mod-add-mod (w + n / 4) n (n - 1)
      ∙ ap (λ (i : ℕ). i % n) {y = w + n - 1 + n / 4} (omega arith)
      ∙ sym (mod-add-mod (w + n - 1) n (n / 4))

  -- What an update gives.
  Updated : List (Reading F) → Reading F → Option (Winding F) → Type 0
  Updated older u o =
      (r' : Winding F) × (o ≡ some r')
      × Holds ops n (u ∷ older) r'
      × ((r'.real, r'.imaginary) ≡ rotate ops (phasor ops n (u ∷ older)) u.1 u.2)

  shift-Updated :
      (older : List (Reading F)) (r : Winding F) (u : Reading F) (real imaginary : F)
      → Holds ops n older r
      → Holds ops n
          (u ∷ older)
          (shift ops (record (with_filtered older r u) { real = real; imaginary = imaginary }))
  shift-Updated older r u real imaginary h =
      let z = zero_value ops in
      let back = (r.write + n - 1) % n in
      let down : (r.write + r.samples_per_cycle - 1) % r.samples_per_cycle ≡ back =
        ap (λ (m : ℕ). (r.write + m - 1) % m) h.size in
      let from_back : (values : List F)
          → window n z values (suc ((r.write + r.samples_per_cycle - 1) % r.samples_per_cycle)) n
            ≡ window n z values r.write n =
        λ values.
          ap (λ (i : ℕ). window n z values (suc i) n) down
          ∙ window_cong n z values (suc back) r.write n (suc_back n z r.write h.write_lt) in
      record {
        size = h.size;
        write_lt = rw down (mod-lt (r.write + n - 1) {m = n} (omega arith));
        quarter_eq =
            ap (λ (m : ℕ). (r.quarter_cycle + m - 1) % m) h.size
            ∙ quarter_back r.write r.quarter_cycle h.quarter_eq h.write_lt
            ∙ ap (λ (i : ℕ). (i + n / 4) % n) (sym down);
        raw_length = sample-length ops n large small r u.0 ∙ h.raw_length;
        filtered_length =
            length-set r.raw_filtered_values r.write (filtered ops n (u ∷ older))
            ∙ h.filtered_length;
        coefficients_eq = h.coefficients_eq;
        raw_eq =
            from_back (sample ops r u.0).raw_values
            ∙ sample-cycle ops n large small older r u.0 u.1 u.2 h;
        filtered_eq =
            from_back (with_filtered older r u).raw_filtered_values ∙ filtered_window older r u h;
      }

  update-Updated :
      (older : List (Reading F)) (r : Winding F) (u : Reading F)
      → Holds ops n older r
      → Updated older u (winding_update ops r u)
  unfolding winding_update Updated
  update-Updated older r u h =
      let p = phasor ops n (u ∷ older) in
      let outputs = rotate ops p u.1 u.2 in
      (
        _,
        ap
              (λ (s : Winding F). calculate_phasor ops s >>= λ x.
                some (shift ops (adjust_output_angle ops x u.1 u.2)))
              (filter_eq older r u h)
            ∙ ap
                (λ (o : Option (Winding F)).
                  o >>= λ x. some (shift ops (adjust_output_angle ops x u.1 u.2)))
                (phasor_eq older r u h),
        shift-Updated older r u outputs.0 outputs.1 h,
        refl,
      )

  pub run_winding-phasor :
      (u : Reading F) (older : List (Reading F))
      → (r : Winding F) × (run_winding ops n (u ∷ older) ≡ some r)
        × ((r.real, r.imaginary) ≡ rotate ops (phasor ops n (u ∷ older)) u.1 u.2)
  unfolding Updated
  run_winding-phasor u older =
      let (x, e, h) = before older in
      let (r, e', h', same) = update-Updated older x u h in (r, rw e e', same)
    where
      before :
          (history : List (Reading F))
          → (x : Winding F) × (run_winding ops n history ≡ some x) × Holds ops n history x
      before [] = (winding ops n, refl, start-Holds ops n large small)
      before (v ∷ rest) =
          let (x, e, h) = before rest in
          let (r, e', h', same) = update-Updated rest x v h in (r, rw e e', h')
