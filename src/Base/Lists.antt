-- ===== src/Base/Lists.antt =====
-- Lists measured and indexed by native numbers, under the library's names.
use Prim.Native.Nat.{ℕ, zero, suc, ◌+◌, ◌-◌, ◌<◌, ◌≤◌, min}
use mathlib.Core.Path.{◌≡◌, refl, ap, ◌∙◌}
use mathlib.Core.Logic.{◌≢◌}
use mathlib.Core.List.{List, [], ◌∷◌, ◌++◌}
use mathlib.Core.Option.{Option, none, some}
use native.Mathlib.Omega.{arith}

module _ {ℓ} {A : Type ℓ} where
  abbrev pub length : List A → ℕ
  length [] = 0
  length (x ∷ xs) = suc (length xs)

  abbrev pub get_elem? : List A → ℕ → Option A
  get_elem? [] i = none
  get_elem? (x ∷ xs) zero = some x
  get_elem? (x ∷ xs) (suc i) = get_elem? xs i

  abbrev pub get_or : List A → ℕ → A → A
  get_or [] i d = d
  get_or (x ∷ xs) zero d = x
  get_or (x ∷ xs) (suc i) d = get_or xs i d

  -- A write out of bounds changes nothing.
  abbrev pub set : List A → ℕ → A → List A
  set [] i v = []
  set (x ∷ xs) zero v = v ∷ xs
  set (x ∷ xs) (suc i) v = x ∷ set xs i v

  abbrev pub take : ℕ → List A → List A
  take zero xs = []
  take (suc n) [] = []
  take (suc n) (x ∷ xs) = x ∷ take n xs

  abbrev pub drop : ℕ → List A → List A
  drop zero xs = xs
  drop (suc n) [] = []
  drop (suc n) (x ∷ xs) = drop n xs

  abbrev pub replicate : ℕ → A → List A
  replicate zero a = []
  replicate (suc n) a = a ∷ replicate n a

  pub length-append : (xs ys : List A) → length (xs ++ ys) ≡ length xs + length ys
  length-append [] ys = omega arith
  length-append (x ∷ xs) ys = omega (arith, length-append xs ys)

  pub length-set : (xs : List A) (i : ℕ) (v : A) → length (set xs i v) ≡ length xs
  length-set [] i v = refl
  length-set (x ∷ xs) zero v = refl
  length-set (x ∷ xs) (suc i) v = ap suc (length-set xs i v)

  pub length-replicate : (n : ℕ) (a : A) → length (replicate n a) ≡ n
  length-replicate zero a = refl
  length-replicate (suc n) a = ap suc (length-replicate n a)

  pub length-take : (n : ℕ) (xs : List A) → length (take n xs) ≡ min n (length xs)
  length-take zero xs = omega arith
  length-take (suc n) [] = omega arith
  length-take (suc n) (x ∷ xs) = omega (arith, length-take n xs)

  pub length-drop : (n : ℕ) (xs : List A) → length (drop n xs) ≡ length xs - n
  length-drop zero xs = omega arith
  length-drop (suc n) [] = omega arith
  length-drop (suc n) (x ∷ xs) = omega (arith, length-drop n xs)

  pub drop_all : (n : ℕ) (xs : List A) → length xs ≤ n → drop n xs ≡ []
  drop_all zero [] h = refl
  drop_all zero (x ∷ xs) h = absurd (omega arith)
  drop_all (suc n) [] h = refl
  drop_all (suc n) (x ∷ xs) h = drop_all n xs (omega arith)

  pub take-append-drop : (n : ℕ) (xs : List A) → take n xs ++ drop n xs ≡ xs
  take-append-drop zero xs = refl
  take-append-drop (suc n) [] = refl
  take-append-drop (suc n) (x ∷ xs) = rw (take-append-drop n xs)

  pub get_or-set_self :
      (xs : List A) (i : ℕ) (v d : A) → i < length xs → get_or (set xs i v) i d ≡ v
  get_or-set_self [] i v d h = absurd (omega arith)
  get_or-set_self (x ∷ xs) zero v d h = refl
  get_or-set_self (x ∷ xs) (suc i) v d h = get_or-set_self xs i v d (omega arith)

  pub get_or-set_ne :
      (xs : List A) {i j : ℕ} (v d : A) → i ≢ j → get_or (set xs i v) j d ≡ get_or xs j d
  get_or-set_ne [] v d h = refl
  get_or-set_ne (x ∷ xs) {i = zero} {j = zero} v d h = absurd (h refl)
  get_or-set_ne (x ∷ xs) {i = zero} {j = suc j} v d h = refl
  get_or-set_ne (x ∷ xs) {i = suc i} {j = zero} v d h = refl
  get_or-set_ne (x ∷ xs) {i = suc i} {j = suc j} v d h = get_or-set_ne xs v d (λ e. h (ap suc e))

  pub get_elem?-set_self :
      (xs : List A) (i : ℕ) (v : A) → i < length xs → get_elem? (set xs i v) i ≡ some v
  get_elem?-set_self [] i v h = absurd (omega arith)
  get_elem?-set_self (x ∷ xs) zero v h = refl
  get_elem?-set_self (x ∷ xs) (suc i) v h = get_elem?-set_self xs i v (omega arith)

  pub get_elem?-set_ne :
      (xs : List A) {i j : ℕ} (v : A) → i ≢ j → get_elem? (set xs i v) j ≡ get_elem? xs j
  get_elem?-set_ne [] v h = refl
  get_elem?-set_ne (x ∷ xs) {i = zero} {j = zero} v h = absurd (h refl)
  get_elem?-set_ne (x ∷ xs) {i = zero} {j = suc j} v h = refl
  get_elem?-set_ne (x ∷ xs) {i = suc i} {j = zero} v h = refl
  get_elem?-set_ne (x ∷ xs) {i = suc i} {j = suc j} v h = get_elem?-set_ne xs v (λ e. h (ap suc e))

-- Every entry satisfies `P`.
abbrev pub All {ℓ} : {A : Type ℓ} → (A → Type 0) → List A → Type 0
All P [] = Unit {0}
All P (x ∷ xs) = P x × All P xs

-- `R` holds between each entry and every later one.
abbrev pub Pairs {ℓ} : {A : Type ℓ} → (A → A → Type 0) → List A → Type 0
Pairs R [] = Unit {0}
Pairs R (x ∷ xs) = All (R x) xs × Pairs R xs

module _ {ℓ} {A : Type ℓ} where
  pub All-mono : {P Q : A → Type 0} → ((x : A) → P x → Q x) → (xs : List A) → All P xs → All Q xs
  All-mono f [] h = tt
  All-mono f (x ∷ xs) (p, ps) = (f x p, All-mono f xs ps)

  pub get_elem?-set-some :
      (xs : List A) (i : ℕ) (a v : A) → get_elem? xs i ≡ some a → get_elem? (set xs i v) i ≡ some v
  get_elem?-set-some [] i a v h = absurd (none≢some h)
    where
      none≢some : none ≡ some a → ⊥
      none≢some h = cc
  get_elem?-set-some (x ∷ xs) zero a v h = refl
  get_elem?-set-some (x ∷ xs) (suc i) a v h = get_elem?-set-some xs i a v h

module _ {ℓ} {A : Type ℓ} where
  -- The items of the second list, written from a position on.
  abbrev pub overwrite : List A → ℕ → List A → List A
  overwrite xs i [] = xs
  overwrite xs i (y ∷ ys) = overwrite (set xs i y) (suc i) ys

  pub length-overwrite :
      (xs : List A) (i : ℕ) (ys : List A) → length (overwrite xs i ys) ≡ length xs
  length-overwrite xs i [] = refl
  length-overwrite xs i (y ∷ ys) = length-overwrite (set xs i y) (suc i) ys ∙ length-set xs i y

  pub overwrite-suc :
      (x : A) (xs : List A) (i : ℕ) (ys : List A)
      → overwrite (x ∷ xs) (suc i) ys ≡ x ∷ overwrite xs i ys
  overwrite-suc x xs i [] = refl
  overwrite-suc x xs i (y ∷ ys) = overwrite-suc x (set xs i y) (suc i) ys

  -- From the start on, the items stand at the front.
  pub overwrite_front :
      (xs ys : List A) → length ys ≤ length xs → overwrite xs 0 ys ≡ ys ++ drop (length ys) xs
  overwrite_front [] [] h = refl
  overwrite_front (x ∷ xs) [] h = refl
  overwrite_front [] (y ∷ ys) h = absurd (omega arith)
  overwrite_front (x ∷ xs) (y ∷ ys) h =
      overwrite-suc y xs 0 ys ∙ ap (λ (l : List A). y ∷ l) (overwrite_front xs ys (omega arith))

  -- From the end of a front part on, that part stays.
  pub overwrite-append :
      (xs ys zs : List A) (i : ℕ)
      → length xs ≡ i
      → overwrite (xs ++ ys) i zs ≡ xs ++ overwrite ys 0 zs
  overwrite-append [] ys zs i h = ap (λ (n : ℕ). overwrite ys n zs) (omega arith)
  overwrite-append (x ∷ xs) ys zs zero h = absurd (omega arith)
  overwrite-append (x ∷ xs) ys zs (suc i) h =
      overwrite-suc x (xs ++ ys) i zs
      ∙ ap (λ (l : List A). x ∷ l) (overwrite-append xs ys zs i (omega arith))

  pub drop-append : (xs ys : List A) (i : ℕ) → length xs ≡ i → drop i (xs ++ ys) ≡ ys
  drop-append [] ys zero h = refl
  drop-append [] ys (suc i) h = absurd (omega arith)
  drop-append (x ∷ xs) ys zero h = absurd (omega arith)
  drop-append (x ∷ xs) ys (suc i) h = drop-append xs ys i (omega arith)

-- A place that is there.
pub get_elem?_lt {ℓ} :
    {A : Type ℓ} (xs : List A) (i : ℕ) (d : A)
    → i < length xs
    → get_elem? xs i ≡ some (get_or xs i d)
get_elem?_lt [] i d h = absurd (omega arith)
get_elem?_lt (x ∷ xs) zero d h = refl
get_elem?_lt (x ∷ xs) (suc i) d h = get_elem?_lt xs i d (omega arith)

-- Writing what is there changes nothing.
pub set_get {ℓ} :
    {A : Type ℓ} (xs : List A) (i : ℕ) (d : A) → i < length xs → set xs i (get_or xs i d) ≡ xs
set_get [] i d h = absurd (omega arith)
set_get (x ∷ xs) zero d h = refl
set_get (x ∷ xs) (suc i) d h = ap (λ (l : List _). x ∷ l) (set_get xs i d (omega arith))

pub get_or-replicate {ℓ} : {A : Type ℓ} (k i : ℕ) (d : A) → get_or (replicate k d) i d ≡ d
get_or-replicate zero i d = refl
get_or-replicate (suc k) zero d = refl
get_or-replicate (suc k) (suc i) d = get_or-replicate k i d
