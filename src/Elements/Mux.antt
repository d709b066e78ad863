-- ===== src/Elements/Mux.antt =====
-- src/LogicElements/include/Elements/Digital/le_Mux.hpp, for any type of signal.
use native.Mathlib.Decide.{ℕ_discrete}
use logic_elements.Base.{
  ap, subst, ◌∙◌, ◌≢◌, lt→ltb, ℕ, zero, suc, ◌+◌, ◌≤◌, ◌<◌, ◌≡◌, refl, Bool, true, false, List,
  Option, none, some, length, get_or, set, ltb, if◌then◌else◌, arith, length-set, get_or-set_self,
  get_or-set_ne,
}

module _ {ℓ} {T : Type ℓ} where
  -- `pOutputs[i]->SetValue(inputValue)`, where the input port is there and connected.
  pub copy_signal : Option T → ℕ → List T → List T
  copy_signal none i outputs = outputs
  copy_signal (some v) i outputs = set outputs i v

  -- The loop of `Mux::Update` over the signals from `i` on, with `left` of them to go.
  pub copy_loop : (ℕ → Option T) → ℕ → ℕ → List T → List T
  copy_loop inputs zero i outputs = outputs
  copy_loop inputs (suc left) i outputs =
      copy_loop inputs left (i + 1) (copy_signal (inputs i) i outputs)

  -- `Mux::Update`. `inputs set signal` is the reading of the port `input_<set>_<signal>`: `none`
  -- where there is no such port or it is not connected. `selector` is the reading of that port.
  pub mux_update : ℕ → (ℕ → ℕ → Option T) → Option Bool → List T → List T
  mux_update width inputs none outputs = outputs
  mux_update width inputs (some selector) outputs =
      copy_loop (inputs (if selector then 1 else 0)) width 0 outputs

  -- `Mux::GetOutput`; `zero_value` is `static_cast<T>(0)`.
  pub get_output : T → List T → ℕ → T
  get_output zero_value outputs i =
      if ltb i (length outputs) then get_or outputs i zero_value else zero_value

  -- What a reading leaves of the value that an output had.
  abbrev pub selected : Option T → T → T
  selected none old = old
  selected (some v) old = v

  abbrev pub chosen : (ℕ → ℕ → Option T) → Option Bool → ℕ → Option T
  chosen inputs none j = none
  chosen inputs (some true) j = inputs 1 j
  chosen inputs (some false) j = inputs 0 j

  length-copy_signal :
      (o : Option T) (i : ℕ) (out : List T) → length (copy_signal o i out) ≡ length out
  unfolding copy_signal
  length-copy_signal none i out = refl
  length-copy_signal (some v) i out = length-set out i v

  copy_signal_ne :
      (o : Option T) (i j : ℕ) (out : List T) (d : T)
      → i ≢ j
      → get_or (copy_signal o i out) j d ≡ get_or out j d
  unfolding copy_signal
  copy_signal_ne none i j out d h = refl
  copy_signal_ne (some v) i j out d h = get_or-set_ne out v d h

  copy_signal_self :
      (o : Option T) (i : ℕ) (out : List T) (d : T)
      → i < length out
      → get_or (copy_signal o i out) i d ≡ selected o (get_or out i d)
  unfolding copy_signal
  copy_signal_self none i out d h = refl
  copy_signal_self (some v) i out d h = get_or-set_self out i v d h

  length-copy_loop :
      (inputs : ℕ → Option T) (left i : ℕ) (out : List T)
      → length (copy_loop inputs left i out) ≡ length out
  unfolding copy_loop
  length-copy_loop inputs zero i out = refl
  length-copy_loop inputs (suc left) i out =
      length-copy_loop inputs left (i + 1) (copy_signal (inputs i) i out)
      ∙ length-copy_signal (inputs i) i out

  copy_loop_before :
      (inputs : ℕ → Option T) (left i j : ℕ) (out : List T) (d : T)
      → j < i
      → get_or (copy_loop inputs left i out) j d ≡ get_or out j d
  unfolding copy_loop
  copy_loop_before inputs zero i j out d h = refl
  copy_loop_before inputs (suc left) i j out d h =
      copy_loop_before inputs left (i + 1) j (copy_signal (inputs i) i out) d (omega arith)
      ∙ copy_signal_ne (inputs i) i j out d (omega arith)

  copy_loop_at :
      (inputs : ℕ → Option T) (left i j : ℕ) (out : List T) (d : T)
      → i ≤ j
      → j < i + left
      → i + left ≤ length out
      → get_or (copy_loop inputs left i out) j d ≡ selected (inputs j) (get_or out j d)
  unfolding copy_loop
  copy_loop_at inputs zero i j out d h k fits = absurd (omega arith)
  copy_loop_at inputs (suc left) i j out d h k fits =
      let out' = copy_signal (inputs i) i out in
      elim (ℕ_discrete i j) [
        | yes e ↦
            copy_loop_before inputs left (i + 1) j out' d (omega arith)
            ∙ subst (λ (m : ℕ). get_or out' m d ≡ selected (inputs m) (get_or out m d)) e
                (copy_signal_self (inputs i) i out d (omega arith))
        | no n ↦
            copy_loop_at inputs left (i + 1) j out' d (omega arith) (omega arith)
              (omega (arith, length-copy_signal (inputs i) i out))
            ∙ ap (selected (inputs j)) (copy_signal_ne (inputs i) i j out d n)
      ]

  -- After an update of a multiplexer with as many outputs as its width, each output has the reading
  -- of its signal in the chosen set, the second where the selector is true and the first where it
  -- is false; an output whose signal is not connected keeps its value, and so does every output
  -- while the selector is not connected.
  pub get_output-mux_update :
      (width : ℕ) (inputs : ℕ → ℕ → Option T) (selector : Option Bool) (out : List T) (d : T)
      (j : ℕ)
      → width ≡ length out
      → j < width
      → get_output d (mux_update width inputs selector out) j
        ≡ selected (chosen inputs selector j) (get_output d out j)
  unfolding get_output mux_update
  get_output-mux_update width inputs none out d j e h = refl
  get_output-mux_update width inputs (some true) out d j e h =
      let l = length-copy_loop (inputs 1) width 0 out in
      rw (l, lt→ltb j (length out) (omega arith))
        (copy_loop_at (inputs 1) width 0 j out d (omega arith) (omega arith) (omega arith))
  get_output-mux_update width inputs (some false) out d j e h =
      let l = length-copy_loop (inputs 0) width 0 out in
      rw (l, lt→ltb j (length out) (omega arith))
        (copy_loop_at (inputs 0) width 0 j out d (omega arith) (omega arith) (omega arith))
