-- ===== src/Core/Order/Cycle.antt =====
-- Where `FindOrder` does not come back. It guards against the element that called it, so against
-- cycles of one and of two elements; a longer cycle it follows without end.
use logic_elements.Base.{
  ℕ, zero, suc, ◌+◌, ◌≡◌, refl, sym, ◌∙◌, ◌≢◌, List, [], ◌∷◌, Option, none, some, ◌⊎◌, inl, inr,
  u16, ◌>>=◌,
}
use logic_elements.Core.Port.{Source, InputPort}
use logic_elements.Core.Element.{Store}
use logic_elements.Core.Order.{port_order, source_orders, inputs_of, find_order, get_order}
use logic_elements.Core.Order.Chain.{Feeds, IsSource, neq}

bind_none {ℓ κ} :
    {A : Type ℓ} {B : Type κ} (m : Option A) → (m >>= λ a. let n : Option B = none in n) ≡ none
bind_none none = refl
bind_none (some a) = refl

port_order-none :
    (visit : ℕ → Option ℕ) (original next s : ℕ) (source : Option Source)
    → (source >>= λ q. some q.element) ≡ some s
    → s ≢ original
    → visit s ≡ none
    → port_order visit original next source ≡ none
port_order-none visit original next s none e ne v = cc
port_order-none visit original next s (some q) e ne v =
    let at : q.element ≡ s = cc in rw (at, neq s original ne, port_order) v

source_orders-none :
    (visit : ℕ → Option ℕ) (original next s : ℕ) (ports : List InputPort)
    → Feeds s ports
    → s ≢ original
    → visit s ≡ none
    → source_orders visit original next ports ≡ none
unfolding source_orders
source_orders-none visit original next s [] f ne v = absurd f
source_orders-none visit original next s (p ∷ ports) (inl f) ne v =
    rw (port_order-none visit original next s p.source f ne v)
source_orders-none visit original next s (p ∷ ports) (inr f) ne v =
    rw (source_orders-none visit original next s ports f ne v) (bind_none _)

module _ {S V : Type 0} (store : Store S V) where
  -- A walk that never turns straight back: from each pair of an element and its caller it goes on
  -- to a source of the element that is not the caller.
  pub record Endless (At : ℕ → ℕ → Type 0) : Type 0 where
    pub goes_on :
        (e original : ℕ) → At e original → (s : ℕ) × IsSource store s e × (s ≢ original) × At s e

  -- On such a walk no amount of fuel is enough for `FindOrder`.
  pub find_order-Endless :
      {At : ℕ → ℕ → Type 0} (w : Endless At) (fuel e original order : ℕ)
      → At e original
      → find_order fuel store e original order ≡ none
  unfolding find_order
  find_order-Endless w zero e original order a = refl
  find_order-Endless w (suc fuel) e original order a =
      let (s, f, ne, a') = w.goes_on e original a in
      rw (
        source_orders-none (λ q. find_order fuel store q e (u16 (order + 1))) original
          (u16 (order + 1)) s (inputs_of store e) f ne
          (find_order-Endless w fuel s e (u16 (order + 1)) a'))

  module _ (a b c : ℕ) (ab : IsSource store b a) (bc : IsSource store c b) (ca : IsSource store a c)
      (a≢b : a ≢ b) (b≢c : b ≢ c) (c≢a : c ≢ a) where
    -- The pairs that the walk round a cycle of three comes to.
    data Round : ℕ → ℕ → Type 0 where
      round :
          (e original : ℕ)
          → ((e ≡ a) × (original ≢ b)) ⊎ (((e ≡ b) × (original ≢ c)) ⊎ ((e ≡ c) × (original ≢ a)))
          → Round e original

    Round-Endless : Endless Round
    Round-Endless = record { goes_on = go }
      where
        go :
            (e original : ℕ)
            → Round e original
            → (s : ℕ) × IsSource store s e × (s ≢ original) × Round s e
        go e original (round _ _ (inl (p, n))) =
            (b, rw p ab, (λ q. n (sym q)), round b e (inr (inl (refl, λ q. c≢a (sym q ∙ p)))))
        go e original (round _ _ (inr (inl (p, n)))) =
            (c, rw p bc, (λ q. n (sym q)), round c e (inr (inr (refl, λ q. a≢b (sym q ∙ p)))))
        go e original (round _ _ (inr (inr (p, n)))) =
            (a, rw p ca, (λ q. n (sym q)), round a e (inl (refl, λ q. b≢c (sym q ∙ p))))

    -- In a cycle of three different elements the search for an element's order ends with no amount
    -- of fuel.
    pub get_order_three_cycle : (fuel : ℕ) → get_order fuel store a ≡ none
    unfolding get_order
    get_order_three_cycle fuel =
        find_order-Endless Round-Endless fuel a a 0 (round a a (inl (refl, a≢b)))
