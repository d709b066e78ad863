-- ===== src/Core/Engine/Text.antt =====
-- The fixed buffers for names: `Engine::CopyAndClampString` of
-- src/LogicElements/src/Core/le_Engine.cpp, and reading a buffer back as a C string.
use logic_elements.Base.{
  ℕ, zero, suc, ◌-◌, ◌≤◌, ◌≡◌, refl, ap, ◌∙◌, ◌≢◌, false, List, [], ◌∷◌, ◌++◌, ◌==◌, if◌then◌else◌,
  take, drop, replicate, set, length, min, arith, length-append, length-replicate, length-take,
}
use logic_elements.Core.Port.{Name}

-- LE_ELEMENT_NAME_LENGTH
abbrev pub element_name_length : ℕ
element_name_length = 16

-- Overwrite the first bytes (`memcpy`).
abbrev pub overwrite : List ℕ → List ℕ → List ℕ
overwrite src dst = src ++ drop (length src) dst

-- `CopyAndClampString`: the buffer afterwards, for a length of 1 or more.
unfoldable pub copy_and_clamp : Name → ℕ → List ℕ
copy_and_clamp src dst_length =
    set (overwrite (take (min (length src) (dst_length - 1)) src) (replicate dst_length 0))
      (dst_length - 1) 0

-- The text of a buffer: up to its first zero byte.
unfoldable pub c_string : List ℕ → Name
c_string [] = []
c_string (b ∷ bs) = if b == 0 then [] else b ∷ c_string bs

abbrev pub NonZero : List ℕ → Type 0
NonZero [] = Unit {0}
NonZero (b ∷ bs) = (b ≢ 0) × NonZero bs

set-append :
    (xs ys : List ℕ) (i v : ℕ) → length xs ≤ i → set (xs ++ ys) i v ≡ xs ++ set ys (i - length xs) v
set-append [] ys i v h = ap (λ (k : ℕ). set ys k v) (omega arith)
set-append (x ∷ xs) ys zero v h = absurd (omega arith)
set-append (x ∷ xs) ys (suc i) v h =
    ap (λ (l : List ℕ). x ∷ l)
      (set-append xs ys i v (omega arith) ∙ ap (λ (k : ℕ). xs ++ set ys k v) (omega arith))

set-replicate : (n i v : ℕ) → set (replicate n v) i v ≡ replicate n v
set-replicate zero i v = refl
set-replicate (suc n) zero v = refl
set-replicate (suc n) (suc i) v = ap (λ (l : List ℕ). v ∷ l) (set-replicate n i v)

drop-replicate : (k n v : ℕ) → drop k (replicate n v) ≡ replicate (n - k) v
drop-replicate zero n v = ap (λ (m : ℕ). replicate m v) (omega arith)
drop-replicate (suc k) zero v = ap (λ (m : ℕ). replicate m v) {x = 0} (omega arith)
drop-replicate (suc k) (suc n) v =
    drop-replicate k n v ∙ ap (λ (m : ℕ). replicate m v) {x = n - k} (omega arith)

c_string-append : (xs : List ℕ) (n : ℕ) → NonZero xs → c_string (xs ++ replicate (suc n) 0) ≡ xs
unfolding c_string
c_string-append [] n h = refl
c_string-append (x ∷ xs) n h =
    rw (nonzero x h.0) (ap (λ (l : List ℕ). x ∷ l) (c_string-append xs n h.1))
  where
    nonzero : (x : ℕ) → x ≢ 0 → (x == 0) ≡ false
    nonzero x h = ground arith

NonZero-take : (k : ℕ) (xs : List ℕ) → NonZero xs → NonZero (take k xs)
NonZero-take zero xs h = tt
NonZero-take (suc k) [] h = tt
NonZero-take (suc k) (x ∷ xs) h = (h.0, NonZero-take k xs h.1)

take-min : (k : ℕ) (xs : List ℕ) → take (min (length xs) k) xs ≡ take k xs
take-min zero xs = ap (λ (m : ℕ). take m xs) {y = 0} (omega arith)
take-min (suc k) [] = ap (λ (m : ℕ). take m []) {y = 0} (omega arith)
take-min (suc k) (x ∷ xs) =
    ap (λ (m : ℕ). take m (x ∷ xs)) {y = suc (min (length xs) k)} (omega arith)
    ∙ ap (λ (l : List ℕ). x ∷ l) (take-min k xs)

-- A text with no zero byte, copied to a buffer of n + 1 bytes, fills the buffer to its length, and
-- is read back as its first n bytes.
pub c_string-copy_and_clamp :
    (src : Name) (n : ℕ)
    → NonZero src
    → (c_string (copy_and_clamp src (suc n)) ≡ take n src)
      × (length (copy_and_clamp src (suc n)) ≡ suc n)
unfolding copy_and_clamp
c_string-copy_and_clamp src n h =
    let xs = take (min (length src) (suc n - 1)) src in
    let small : length xs ≤ n = omega (arith, length-take (min (length src) (suc n - 1)) src) in
    let rest : ℕ = n - length xs in
    let cut : drop (length xs) (replicate (suc n) 0) ≡ replicate (suc rest) 0 =
      drop-replicate (length xs) (suc n) 0
      ∙ ap (λ (m : ℕ). replicate m 0) {x = suc n - length xs} {y = suc rest} (omega arith) in
    let buffer : set (xs ++ drop (length xs) (replicate (suc n) 0)) (suc n - 1) 0
        ≡ xs ++ replicate (suc rest) 0 =
      set-append xs _ (suc n - 1) 0 (omega arith)
      ∙ ap (λ (l : List ℕ). xs ++ set l (suc n - 1 - length xs) 0) cut
      ∙ ap (λ (l : List ℕ). xs ++ l) (set-replicate (suc rest) (suc n - 1 - length xs) 0) in
    let text : xs ≡ take n src =
      ap (λ (m : ℕ). take m src) {y = min (length src) n} (omega arith) ∙ take-min n src in
    (
      ap c_string buffer
          ∙ c_string-append xs rest (NonZero-take (min (length src) (suc n - 1)) src h)
          ∙ text,
      ap length buffer
          ∙ omega
              (arith, length-append xs (replicate (suc rest) 0), length-replicate (suc rest) zero),
    )
