-- ===== src/Core/Engine/Sort.antt =====
-- What `Engine::SortElements` leaves: the same elements, each of them behind its sources.
use mathlib.Core.List.{Perm}
use mathlib.Core.List.Perm
use logic_elements.Base.{
  ℕ, suc, ◌+◌, ◌^◌, ◌≤◌, ◌<◌, ◌≡◌, refl, sym, ap, subst, ◌≢◌, List, [], ◌∷◌, map, Option, some, leb,
  All, Pairs, All-mono, arith, inl, inr, Bool-cases, ◌>>=◌,
}
use logic_elements.Core.Element.{Store}
use logic_elements.Core.Order.{get_order}
use logic_elements.Core.Order.Chain.{IsSource, get_order-Longest, get_order-lt}
use logic_elements.Core.Engine.{Engine, insert_by_order, sort_by_order, with_orders, sort_elements}

insert_by_order-Perm : (x : ℕ × ℕ) (ys : List (ℕ × ℕ)) → Perm (insert_by_order x ys) (x ∷ ys)
unfolding insert_by_order
insert_by_order-Perm x [] = Perm.refl (x ∷ [])
insert_by_order-Perm x (y ∷ ys) = elim (Bool-cases (leb x.0 y.0)) [
  | inl e ↦ rw e (Perm.refl (x ∷ y ∷ ys))
  | inr e ↦ rw e (Perm.trans (Perm.cons y (insert_by_order-Perm x ys)) (Perm.swap x y ys))
]

pub sort_by_order-Perm : (xs : List (ℕ × ℕ)) → Perm (sort_by_order xs) xs
unfolding sort_by_order
sort_by_order-Perm [] = Perm.refl []
sort_by_order-Perm (x ∷ xs) =
    Perm.trans (insert_by_order-Perm x (sort_by_order xs)) (Perm.cons x (sort_by_order-Perm xs))

All-insert_by_order :
    (P : ℕ × ℕ → Type 0) (x : ℕ × ℕ) (ys : List (ℕ × ℕ))
    → P x
    → All P ys
    → All P (insert_by_order x ys)
unfolding insert_by_order
All-insert_by_order P x [] p h = (p, tt)
All-insert_by_order P x (y ∷ ys) p (q, qs) = elim (Bool-cases (leb x.0 y.0)) [
  | inl e ↦ rw e (p, (q, qs))
  | inr e ↦ rw e (q, All-insert_by_order P x ys p qs)
]

All-sort_by_order : (P : ℕ × ℕ → Type 0) (xs : List (ℕ × ℕ)) → All P xs → All P (sort_by_order xs)
unfolding sort_by_order
All-sort_by_order P [] h = tt
All-sort_by_order P (x ∷ xs) (p, ps) =
    All-insert_by_order P x (sort_by_order xs) p (All-sort_by_order P xs ps)

abbrev NoLater : ℕ × ℕ → ℕ × ℕ → Type 0
NoLater x y = x.0 ≤ y.0

insert_by_order-NoLater :
    (x : ℕ × ℕ) (ys : List (ℕ × ℕ)) → Pairs NoLater ys → Pairs NoLater (insert_by_order x ys)
unfolding insert_by_order
insert_by_order-NoLater x [] h = (tt, tt)
insert_by_order-NoLater x (y ∷ ys) (h, hs) = elim (Bool-cases (leb x.0 y.0)) [
  | inl e ↦
      let le : x.0 ≤ y.0 = ground arith in rw e ((le, All-mono (λ z l. omega arith) ys h), (h, hs))
  | inr e ↦
      let le : y.0 ≤ x.0 = ground arith in
      rw e (All-insert_by_order (NoLater y) x ys le h, insert_by_order-NoLater x ys hs)
]

sort_by_order-NoLater : (xs : List (ℕ × ℕ)) → Pairs NoLater (sort_by_order xs)
unfolding sort_by_order
sort_by_order-NoLater [] = tt
sort_by_order-NoLater (x ∷ xs) =
    insert_by_order-NoLater x (sort_by_order xs) (sort_by_order-NoLater xs)

module _ (R : ℕ × ℕ → ℕ × ℕ → Type 0) (swapped : (x y : ℕ × ℕ) → R x y → R y x) where
  insert_by_order-Pairs :
      (x : ℕ × ℕ) (ys : List (ℕ × ℕ)) → All (R x) ys → Pairs R ys → Pairs R (insert_by_order x ys)
  unfolding insert_by_order
  insert_by_order-Pairs x [] p h = (tt, tt)
  insert_by_order-Pairs x (y ∷ ys) (p, ps) (h, hs) = elim (Bool-cases (leb x.0 y.0)) [
    | inl e ↦ rw e ((p, ps), (h, hs))
    | inr e ↦
        rw e (All-insert_by_order (R y) x ys (swapped x y p) h, insert_by_order-Pairs x ys ps hs)
  ]

  sort_by_order-Pairs : (xs : List (ℕ × ℕ)) → Pairs R xs → Pairs R (sort_by_order xs)
  unfolding sort_by_order
  sort_by_order-Pairs [] h = tt
  sort_by_order-Pairs (x ∷ xs) (h, hs) =
      insert_by_order-Pairs x (sort_by_order xs) (All-sort_by_order (R x) xs h)
        (sort_by_order-Pairs xs hs)

abbrev Other : ℕ × ℕ → ℕ × ℕ → Type 0
Other x y = x.1 ≢ y.1

map-All : (P : ℕ → Type 0) (ks : List (ℕ × ℕ)) → All P (map (λ x. x.1) ks) → All (λ x. P x.1) ks
map-All P [] h = tt
map-All P (k ∷ ks) (h, hs) = (h, map-All P ks hs)

map-Other : (ks : List (ℕ × ℕ)) → Pairs ◌≢◌ (map (λ x. x.1) ks) → Pairs Other ks
map-Other [] h = tt
map-Other (k ∷ ks) (h, hs) = (map-All (λ x. k.1 ≢ x) ks h, map-Other ks hs)

module _ {S V : Type 0} (store : Store S V) where
  -- `x` may stand behind `e`.
  abbrev pub Before : ℕ → ℕ → Type 0
  Before e x = (e ≢ x) × (IsSource store x e → ⊥)

  -- No element stands twice, takes a value from itself, or stands before one of its sources.
  abbrev pub SourcesFirst : List ℕ → Type 0
  SourcesFirst es = Pairs Before es × All (λ e. IsSource store e e → ⊥) es

  module _ (rank : ℕ → ℕ) (falls : (s e : ℕ) → IsSource store s e → rank s < rank e)
      (fuel : ℕ) where
    abbrev pub IsSmall : ℕ → Type 0
    IsSmall e = (rank e < fuel) × (rank e + 1 < 2 ^ 16)

    -- The key of an element is its order.
    abbrev IsKey : ℕ × ℕ → Type 0
    IsKey x = (get_order fuel store x.1 ≡ some x.0) × IsSmall x.1

    with_orders-IsKey :
        (es : List ℕ)
        → All IsSmall es
        → (ks : List (ℕ × ℕ)) × (with_orders fuel store es ≡ some ks)
          × (map (λ x. x.1) ks ≡ es)
          × All IsKey ks
    unfolding with_orders
    with_orders-IsKey [] h = ([], refl, refl, tt)
    with_orders-IsKey (e ∷ es) (h, hs) =
        let (n, p, l) = get_order-Longest store rank falls fuel e h.0 h.1 in
        let (ks, q, m, a) = with_orders-IsKey es hs in
        ((suc n, e) ∷ ks, rw (p, q) refl, ap (λ (xs : List ℕ). e ∷ xs) m, ((p, h), a))

    keys-Before : (x y : ℕ × ℕ) → IsKey x → IsKey y → NoLater x y → Other x y → Before x.1 y.1
    keys-Before x y (p, hx) (q, hy) le ne = (
      ne,
      λ f.
          let lt = get_order-lt store rank falls fuel y.1 x.1 y.0 x.0 f hx.0 hx.1 q p in
          omega arith,
    )

    keys-All :
        (x : ℕ × ℕ) (ys : List (ℕ × ℕ))
        → IsKey x
        → All IsKey ys
        → All (NoLater x) ys
        → All (Other x) ys
        → All (Before x.1) (map (λ y. y.1) ys)
    keys-All x [] k a l o = tt
    keys-All x (y ∷ ys) k (a, ka) (l, ls) (o, os) =
        (keys-Before x y k a l o, keys-All x ys k ka ls os)

    keys-SourcesFirst :
        (ks : List (ℕ × ℕ))
        → All IsKey ks
        → Pairs NoLater ks
        → Pairs Other ks
        → SourcesFirst (map (λ x. x.1) ks)
    keys-SourcesFirst [] a l o = (tt, tt)
    keys-SourcesFirst (k ∷ ks) (a, ka) (l, ls) (o, os) =
        let (pairs, alone) = keys-SourcesFirst ks ka ls os in
        ((keys-All k ks a ka l o, pairs), ((λ f. let lt = falls k.1 k.1 f in omega arith), alone))

-- In a network without cycles (a rank rises along every connection, and is less than the fuel and
-- than 2 ^ 16 - 1 at every listed element) that lists no element twice, sorting ends, changes only
-- the order of the list, and puts no element before one of its sources.
pub sort_elements-SourcesFirst :
    {S V : Type 0} (g : Engine S V) (rank : ℕ → ℕ) (fuel : ℕ)
    → ((s e : ℕ) → IsSource g.store s e → rank s < rank e)
    → All (λ e. (rank e < fuel) × (rank e + 1 < 2 ^ 16)) g.elements
    → Pairs ◌≢◌ g.elements
    → (es : List ℕ) × (sort_elements fuel g ≡ some (record g { elements = es }))
      × Perm es g.elements
      × SourcesFirst g.store es
unfolding sort_elements
sort_elements-SourcesFirst g rank fuel falls small distinct =
    let (ks, returns, m, keys) = with_orders-IsKey g.store rank falls fuel g.elements small in
    let sorted = sort_by_order ks in
    (
      map (λ x. x.1) sorted,
      ap
          (λ (o : Option (List (ℕ × ℕ))).
            o >>= λ keyed. some (record g { elements = map (λ x. x.1) (sort_by_order keyed) }))
          returns,
      subst (Perm (map (λ x. x.1) sorted)) m (Perm.map (λ x. x.1) (sort_by_order-Perm ks)),
      keys-SourcesFirst g.store rank falls fuel sorted
          (All-sort_by_order (IsKey g.store rank falls fuel) ks keys) (sort_by_order-NoLater ks)
          (sort_by_order-Pairs Other (λ x y h e. h (sym e)) ks
            (map-Other ks (subst (Pairs ◌≢◌) (sym m) distinct))),
    )
