-- ===== src/Communication/Comms/Numbers.antt =====
-- `std::stoi` on decimal numbers.
use native.Mathlib.Decide.{dec_lt}
use logic_elements.Base.{
  ℕ, zero, suc, ◌+◌, ◌*◌, ◌-◌, ◌/◌, ◌%◌, ◌^◌, ◌≤◌, ◌<◌, ◌≡◌, refl, ap, ◌∙◌, ◌≢◌, true, false, [],
  ◌∷◌, ◌++◌, some, All, ltb, ◌==◌, arith, length, length-append, Bool-cases, inl, inr, All-mono,
  lt→ltb, not_ltb,
}
use logic_elements.Base.Int.{pos}
use logic_elements.Base.Decimal.{decimal_loop, decimal}
use logic_elements.Core.Port.{Name}
use logic_elements.Communication.Comms.{is_digit, leading_number, positive, stoi}
use logic_elements.Communication.Comms.Words.{NoSpace, IsWord}

abbrev IsDigit : ℕ → Type 0
IsDigit c = is_digit c ≡ true

All-snoc : (w : Name) (c : ℕ) → All IsDigit w → IsDigit c → All IsDigit (w ++ c ∷ [])
All-snoc [] c h k = (k, tt)
All-snoc (b ∷ w) c (h, hs) k = (h, All-snoc w c hs k)

digit : (n : ℕ) → n < 10 → IsDigit (48 + n)
digit n h = ground arith

decimal_loop-IsDigit : (fuel n : ℕ) → n ≤ fuel → All IsDigit (decimal_loop fuel n)
unfolding decimal_loop
decimal_loop-IsDigit zero n h = (digit n (omega arith), tt)
decimal_loop-IsDigit (suc fuel) n h = elim (dec_lt n 10) [
  | yes p ↦ rw (lt→ltb n 10 p) (digit n p, tt)
  | no p ↦ rw (not_ltb n 10 p) (
      All-snoc (decimal_loop fuel (n / 10)) (48 + n % 10)
        (decimal_loop-IsDigit fuel (n / 10) (omega arith)) (digit (n % 10) (omega arith)))
]

leading_number_snoc :
    (a : ℕ) (w : Name) (c : ℕ)
    → All IsDigit w
    → IsDigit c
    → leading_number a (w ++ c ∷ []) ≡ leading_number a w * 10 + (c - 48)
unfolding leading_number
leading_number_snoc a [] c h k = rw k refl
leading_number_snoc a (b ∷ w) c (h, hs) k = rw h (leading_number_snoc (a * 10 + (b - 48)) w c hs k)

leading_number-decimal_loop : (fuel n : ℕ) → n ≤ fuel → leading_number 0 (decimal_loop fuel n) ≡ n
unfolding leading_number decimal_loop
leading_number-decimal_loop zero n h = rw (digit n (omega arith)) (omega arith)
leading_number-decimal_loop (suc fuel) n h = elim (dec_lt n 10) [
  | yes p ↦ rw (lt→ltb n 10 p, digit n p) (omega arith)
  | no p ↦ rw (not_ltb n 10 p) (
      leading_number_snoc 0 (decimal_loop fuel (n / 10)) (48 + n % 10)
        (decimal_loop-IsDigit fuel (n / 10) (omega arith)) (digit (n % 10) (omega arith))
      ∙ omega (arith, leading_number-decimal_loop fuel (n / 10) (omega arith)))
]

length-decimal_loop : (fuel n : ℕ) → 0 < length (decimal_loop fuel n)
unfolding decimal_loop
length-decimal_loop zero n = omega arith
length-decimal_loop (suc fuel) n = elim (Bool-cases (ltb n 10)) [
  | inl t ↦ rw t (omega arith)
  | inr f ↦ rw f (omega (arith, length-append (decimal_loop fuel (n / 10)) ((48 + n % 10) ∷ [])))
]

decimal_loop-ne : (fuel n : ℕ) → decimal_loop fuel n ≢ []
decimal_loop-ne fuel n = not_empty (decimal_loop fuel n) (length-decimal_loop fuel n)
  where
    not_empty : (w : Name) → 0 < length w → w ≢ []
    not_empty [] h e = omega arith
    not_empty (c ∷ w) h e = cc

no_space : (c : ℕ) → IsDigit c → NoSpace c
no_space c h = ground arith

pub decimal-IsWord : (n : ℕ) → IsWord (decimal n)
decimal-IsWord n =
    (decimal_loop-ne n n, All-mono no_space (decimal n) (decimal_loop-IsDigit n n (omega arith)))

stoi_digits :
    (w : Name)
    → w ≢ []
    → All IsDigit w
    → leading_number 0 w < 2 ^ 31
    → stoi w ≡ some (pos (leading_number 0 w))
unfolding stoi positive
stoi_digits [] h d small = absurd (h refl)
stoi_digits (c ∷ w) h (d, ds) small =
    rw
      (
        no_space c d,
        not_minus c d,
        not_plus c d,
        d,
        lt→ltb (leading_number 0 (c ∷ w)) (2 ^ 31) small,
      )
      refl
  where
    not_minus : (c : ℕ) → IsDigit c → (c == 45) ≡ false
    not_minus c d = ground arith

    not_plus : (c : ℕ) → IsDigit c → (c == 43) ≡ false
    not_plus c d = ground arith

pub stoi-decimal : (n : ℕ) → n < 2 ^ 31 → stoi (decimal n) ≡ some (pos n)
stoi-decimal n h =
    let same = leading_number-decimal_loop n n (omega arith) in
    stoi_digits (decimal n) (decimal_loop-ne n n) (decimal_loop-IsDigit n n (omega arith))
      (omega arith)
    ∙ ap (λ (k : ℕ). some (pos k)) same
