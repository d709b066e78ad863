-- ===== src/Builder/Loops.antt =====
-- The builder's loops, which return at the first error: what holds of every round holds of them.
use logic_elements.Base.{◌≡◌, refl, List, [], ◌∷◌, Option, none, some, some_inj, subst, All}
use logic_elements.Builder.Values.{Result, ok, rejected, Errors, each, and_then}

pub ok_inj : {A : Type 0} {a b : A} → ok a ≡ ok b → a ≡ b
ok_inj h = cc

pub rejected≢ok : {A : Type 0} {e : Errors} {a : A} → rejected e ≡ ok a → ⊥
rejected≢ok h = cc

pub none≢some : {A : Type 0} {a : A} → none ≡ some a → ⊥
none≢some h = cc

-- Two calls that both returned true.
pub and_then-ok :
    {A B : Type 0} (r : Option (Result A)) (f : A → Option (Result B)) (b : B)
    → and_then r f ≡ some (ok b)
    → (a : A) × (r ≡ some (ok a)) × (f a ≡ some (ok b))
unfolding and_then
and_then-ok none f b h = absurd (none≢some h)
and_then-ok (some (rejected e)) f b h = absurd (rejected≢ok (some_inj h))
and_then-ok (some (ok a)) f b h = (a, refl, h)

-- What every round keeps.
pub each-invariant :
    {A S : Type 0} (Inv : S → Type 0) (f : S → A → Option (Result S))
    → ((s s' : S) (a : A) → Inv s → f s a ≡ some (ok s') → Inv s')
    → (s s' : S) (as' : List A) → Inv s
    → each f s as' ≡ some (ok s')
    → Inv s'
unfolding each
each-invariant Inv f keeps s s' [] inv h = subst Inv (ok_inj (some_inj h)) inv
each-invariant Inv f keeps s s' (a ∷ rest) inv h =
    let (t, e, e') = and_then-ok (f s a) (λ x. each f x rest) s' h in
    each-invariant Inv f keeps t s' rest (keeps s t a inv e) e'

-- What every round makes of its item, and later rounds keep.
pub each-made :
    {A S : Type 0} (Made : A → S → Type 0) (f : S → A → Option (Result S))
    → ((s s' : S) (a : A) → f s a ≡ some (ok s') → Made a s')
    → ((s s' : S) (a b : A) → Made b s → f s a ≡ some (ok s') → Made b s')
    → (s s' : S) (as' : List A) → each f s as' ≡ some (ok s')
    → All (λ a. Made a s') as'
unfolding each
each-made Made f makes keeps s s' [] h = tt
each-made Made f makes keeps s s' (a ∷ rest) h =
    let (t, e, e') = and_then-ok (f s a) (λ x. each f x rest) s' h in
    (
      each-invariant (Made a) f (λ x x' b. keeps x x' b a) t s' rest (makes s t a e) e',
      each-made Made f makes keeps t s' rest e',
    )
