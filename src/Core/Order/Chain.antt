-- ===== src/Core/Order/Chain.antt =====
-- Without cycles the order of an element is the length of the longest chain of connections that
-- ends at it, so an element comes after its sources.
use Prim.Native.Nat.{suc-le-suc, max}
use native.Mathlib.Nat.{add-zero}
use native.Mathlib.Decide.{dec_le}
use logic_elements.Base.{
  ℕ, zero, suc, ◌+◌, ◌^◌, ◌≤◌, ◌<◌, ◌≡◌, refl, sym, ap, ◌∙◌, ◌≢◌, false, List, [], ◌∷◌, Option,
  none, some, arith, ◌⊎◌, inl, inr, ltb, ◌==◌, if◌then◌else◌, u16, subst, ◌>>=◌, some_inj,
}
use logic_elements.Core.Port.{Source, InputPort}
use logic_elements.Core.Element.{Store}
use logic_elements.Core.Order.{port_order, source_orders, highest, inputs_of, find_order, get_order}

-- The element that an input port takes its value from.
abbrev pub source_element : InputPort → Option ℕ
source_element p = do s ← p.source; some s.element

-- One of the ports takes its value from `s`.
abbrev pub Feeds : ℕ → List InputPort → Type 0
Feeds s [] = ⊥
Feeds s (p ∷ ports) = (source_element p ≡ some s) ⊎ Feeds s ports

pub neq : (a b : ℕ) → a ≢ b → (a == b) ≡ false
neq a b h = ground arith

pick : (next a b : ℕ) → (if ltb (next + a) (next + b) then next + b else next + a) ≡ next + max a b
pick next a b = ground arith

module _ {S V : Type 0} (store : Store S V) where
  abbrev pub IsSource : ℕ → ℕ → Type 0
  IsSource s e = Feeds s (inputs_of store e)

  -- A chain of `n` connections that ends at `e`.
  abbrev pub Chain : ℕ → ℕ → Type 0
  Chain zero e = Unit {0}
  Chain (suc n) e = (s : ℕ) × IsSource s e × Chain n s

  -- The longest chain that ends at `e` has `n` connections.
  pub record Longest (e n : ℕ) : Type 0 where
    pub chain : Chain n e
    pub longest : (m : ℕ) → Chain m e → m ≤ n

  -- What the walk over the ports finds, in terms of `next`: `top` is 0 where no port has a source,
  -- and otherwise one more than the longest chain that ends at a source.
  record Walked (next : ℕ) (ports : List InputPort) (r : Option (List ℕ)) : Type 0 where
    orders : List ℕ
    returns : r ≡ some orders
    top : ℕ
    highest_is : (a : ℕ) → highest (next + a) orders ≡ next + max a top
    reached : (top ≡ 0) ⊎ ((s : ℕ) × (n : ℕ) × Feeds s ports × Chain n s × (top ≡ suc n))
    bounds : (s m : ℕ) → Feeds s ports → Chain m s → suc m ≤ top

  record PortWalked (next : ℕ) (p : InputPort) (r : Option ℕ) : Type 0 where
    add : ℕ
    returns : r ≡ some (next + add)
    reached :
        (add ≡ 0) ⊎ ((s : ℕ) × (n : ℕ) × (source_element p ≡ some s) × Chain n s × (add ≡ suc n))
    bounds : (s m : ℕ) → source_element p ≡ some s → Chain m s → suc m ≤ add

  Visits : (ℕ → Option ℕ) → ℕ → ℕ → Type 0
  Visits visit next s = (n : ℕ) × (visit s ≡ some (next + 1 + n)) × Longest s n

  visits_source :
      (visit : ℕ → Option ℕ) (original next : ℕ) (q : Source)
      → q.element ≢ original
      → port_order visit original next (some q) ≡ visit q.element
  visits_source visit original next q ne = rw (neq q.element original ne, port_order)

  port-Walked :
      (visit : ℕ → Option ℕ) (original next : ℕ) (p : InputPort) (source : Option Source)
      → p.source ≡ source
      → ((s : ℕ) → source_element p ≡ some s → (s ≢ original) × Visits visit next s)
      → PortWalked next p (port_order visit original next p.source)
  unfolding Visits
  port-Walked visit original next p none e v = record {
    add = 0;
    returns = ap (port_order visit original next) e ∙ ap some (sym (add-zero next));
    reached = inl refl;
    bounds = λ s m h c.
        absurd (none≢some s (sym (ap (λ (o : Option Source). o >>= λ q. some q.element) e) ∙ h));
  }
    where
      none≢some : (s : ℕ) → none ≡ some s → ⊥
      none≢some s h = cc
  port-Walked visit original next p (some q) e v =
      let at : source_element p ≡ some q.element =
        ap (λ (o : Option Source). o >>= λ r. some r.element) e in
      let (ne, visits) = v q.element at in
      let (n, returns, l) = visits in
      record {
        add = suc n;
        returns =
            ap (port_order visit original next) e
            ∙ visits_source visit original next q ne
            ∙ returns
            ∙ ap some (omega arith);
        reached = inr (q.element, n, at, l.chain, refl);
        bounds = λ s m h c. suc-le-suc (l.longest m (subst (Chain m) (some_inj (sym h ∙ at)) c));
      }

  ports-Walked :
      (visit : ℕ → Option ℕ) (original next : ℕ) (ports : List InputPort)
      → ((s : ℕ) → Feeds s ports → (s ≢ original) × Visits visit next s)
      → Walked next ports (source_orders visit original next ports)
  unfolding source_orders highest
  ports-Walked visit original next [] v = record {
    orders = [];
    returns = refl;
    top = 0;
    highest_is = λ a. omega arith;
    reached = inl refl;
    bounds = λ s m h c. absurd h;
  }
  ports-Walked visit original next (p ∷ ports) v =
      let w = port-Walked visit original next p p.source refl (λ s h. v s (inl h)) in
      let ws = ports-Walked visit original next ports (λ s h. v s (inr h)) in
      record {
        orders = (next + w.add) ∷ ws.orders;
        returns = rw (w.returns, ws.returns);
        top = max w.add ws.top;
        highest_is = λ a.
            ap (λ (x : ℕ). highest x ws.orders) (pick next a w.add)
            ∙ ws.highest_is (max a w.add)
            ∙ ap (λ (x : ℕ). next + x) (omega arith);
        reached = elim (dec_le w.add ws.top) [
          | yes le ↦ elim ws.reached [
            | inl z ↦ inl (omega arith)
            | inr (s, n, f, c, e) ↦ inr (s, n, inr f, c, omega arith)
          ]
          | no gt ↦ elim w.reached [
            | inl z ↦ absurd (omega arith)
            | inr (s, n, f, c, e) ↦ inr (s, n, inl f, c, omega arith)
          ]
        ];
        bounds = λ s m h c. elim h [
          | inl f ↦ omega (arith, w.bounds s m f c)
          | inr f ↦ omega (arith, ws.bounds s m f c)
        ];
      }

  module _ (rank : ℕ → ℕ) (falls : (s e : ℕ) → IsSource s e → rank s < rank e) where
    Chain-le-rank : (n e : ℕ) → Chain n e → n ≤ rank e
    Chain-le-rank zero e c = omega arith
    Chain-le-rank (suc n) e (s, f, c) = omega (arith, falls s e f, Chain-le-rank n s c)

    top-Chain :
        (top e : ℕ)
        → (top ≡ 0) ⊎ ((s : ℕ) × (n : ℕ) × IsSource s e × Chain n s × (top ≡ suc n))
        → Chain top e
    top-Chain top e (inl z) = rw z tt
    top-Chain top e (inr (s, n, f, c, z)) = rw z (s, f, c)

    below :
        (top e : ℕ)
        → ((s m : ℕ) → IsSource s e → Chain m s → suc m ≤ top)
        → (m : ℕ) → Chain m e
        → m ≤ top
    below top e b zero c = omega arith
    below top e b (suc m) (s, f, c) = b s m f c

    -- With no cycle, more fuel than the rank, and no more than 2 ^ 16 elements in a chain, the
    -- walk from `order` ends, and adds the length of the longest chain.
    find_order-Longest :
        (fuel e original order : ℕ)
        → rank e < fuel
        → order + rank e + 1 < 2 ^ 16
        → ((s : ℕ) → IsSource s e → s ≢ original)
        → (n : ℕ) × (find_order fuel store e original order ≡ some (order + 1 + n)) × Longest e n
    unfolding find_order Visits
    find_order-Longest zero e original order h small apart = absurd (omega arith)
    find_order-Longest (suc fuel) e original order h small apart =
        let next = u16 (order + 1) in
        let w =
          ports-Walked (λ s. find_order fuel store s e next) original next (inputs_of store e)
            (λ s f. (
              apart s f,
              find_order-Longest fuel s e next (omega (arith, falls s e f))
                  (omega (arith, falls s e f))
                  (λ q g e'. omega (arith, falls q s g, falls s e f, ap rank e')),
            )) in
        (
          w.top,
          rw w.returns (
              ap some (
                ap (λ (x : ℕ). highest x w.orders) (sym (add-zero next))
                ∙ w.highest_is 0
                ∙ omega arith)),
          record { chain = top-Chain w.top e w.reached; longest = below w.top e w.bounds },
        )

    -- In a network without cycles (a rank rises along every connection), with more fuel than the
    -- rank of the element, and that rank plus one below 2 ^ 16, the search for the element's order
    -- ends, and the order is one more than the number of connections in the longest chain that ends
    -- at the element.
    pub get_order-Longest :
        (fuel e : ℕ)
        → rank e < fuel
        → rank e + 1 < 2 ^ 16
        → (n : ℕ) × (get_order fuel store e ≡ some (suc n)) × Longest e n
    unfolding get_order
    get_order-Longest fuel e h small =
        let (n, returns, l) =
          find_order-Longest fuel e e 0 h (omega arith)
            (λ s f q. omega (arith, falls s e f, ap rank q)) in
        (n, returns ∙ ap some (omega arith), l)

    -- An element has a higher order than each of its sources.
    pub get_order-lt :
        (fuel s e a b : ℕ)
        → IsSource s e
        → rank e < fuel
        → rank e + 1 < 2 ^ 16
        → get_order fuel store s ≡ some a
        → get_order fuel store e ≡ some b
        → a < b
    get_order-lt fuel s e a b f h small ha hb =
        let lower = falls s e f in
        let (n, p, l) = get_order-Longest fuel s (omega arith) (omega arith) in
        let (m, q, k) = get_order-Longest fuel e h small in
        let p' = some_inj (sym ha ∙ p) in
        let q' = some_inj (sym hb ∙ q) in omega (arith, k.longest (suc n) (s, f, l.chain))
