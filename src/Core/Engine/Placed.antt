-- ===== src/Core/Engine/Placed.antt =====
-- The places that an engine of src/LogicElements/src/Core/le_Engine.cpp refers to, which stand for
-- its pointers to elements: each is that of an element in the store.
use mathlib.Core.List.{
  Perm, Mem, eq-or-mem_of_mem-cons, mem-cons_self, mem-cons_of_mem, not-mem-nil,
}
use mathlib.Core.List.Perm
use mathlib.Core.HLevel.{⊥_prop}
use mathlib.Core.Logic.Or
use logic_elements.Base.{
  ℕ, ◌+◌, ◌<◌, ◌≤◌, ◌≡◌, refl, sym, ap, ◌∙◌, List, [], ◌∷◌, ◌++◌, some, inl, inr, some_inj, length,
  arith, All, All-mono, if_true, if_false, Bool-cases, Option-cases, subst, length-append,
  length-set, >>=-eq-some, take, u16,
}
use logic_elements.Core.Port.{Name, name_eq}
use logic_elements.Core.Element.{Element, Store, connect}
use logic_elements.Core.Element.Connect.{connect-Fits, Fits-cases}
use logic_elements.Core.Engine.{
  Engine, NetConnection, Net, find_name, get_element, register, sort_elements, add_element,
  connect_input, connect_inputs, add_net,
}
use logic_elements.Core.Engine.Text.{c_string}
use logic_elements.Core.Engine.Names.{sort_elements-Perm}

pub not-Mem : (n : ℕ) (xs : List ℕ) → All (λ x. x < n) xs → ¬ Mem n xs
not-Mem n [] h m = not-mem-nil m
not-Mem n (x ∷ xs) (h, hs) m =
    Or.elim ⊥_prop (eq-or-mem_of_mem-cons m) (λ q. omega arith) (λ m'. not-Mem n xs hs m')

lt-Mem : (n e : ℕ) (xs : List ℕ) → All (λ x. x < n) xs → Mem e xs → ¬ (n ≤ e)
lt-Mem n e [] h m k = not-mem-nil m
lt-Mem n e (x ∷ xs) (h, hs) m k =
    Or.elim ⊥_prop (eq-or-mem_of_mem-cons m) (λ q. omega arith) (λ m'. lt-Mem n e xs hs m' k)

All-lt : (n : ℕ) (xs : List ℕ) → ((e : ℕ) → Mem e xs → ¬ (n ≤ e)) → All (λ x. x < n) xs
All-lt n [] h = tt
All-lt n (x ∷ xs) h =
    let first : ¬ (n ≤ x) = h x mem-cons_self in
    (omega arith, All-lt n xs (λ e m. h e (mem-cons_of_mem x m)))

All-Perm : (n : ℕ) (xs ys : List ℕ) → Perm xs ys → All (λ x. x < n) ys → All (λ x. x < n) xs
All-Perm n xs ys p h = All-lt n xs (λ e m. lt-Mem n e ys h ((Perm.mem_iff p).0 m))

All-append :
    (n : ℕ) (xs : List ℕ) (y : ℕ) → All (λ x. x < n) xs → y < n → All (λ x. x < n) (xs ++ y ∷ [])
All-append n [] y h k = (k, tt)
All-append n (x ∷ xs) y (h, hs) k = (h, All-append n xs y hs k)

pub find_name-lt :
    (n : ℕ) (names : List (Name × ℕ)) (name : Name) (e : ℕ)
    → All (λ x. x.1 < n) names
    → find_name names name ≡ some e
    → e < n
unfolding find_name
find_name-lt n [] name e h found = cc
find_name-lt n ((key, x) ∷ names) name e (h, hs) found = elim (Bool-cases (name_eq key name)) [
  | inl same ↦
      let at : x ≡ e = some_inj (sym (if_true (name_eq key name) _ _ same) ∙ found) in omega arith
  | inr other ↦ find_name-lt n names name e hs (sym (if_false (name_eq key name) _ _ other) ∙ found)
]

module _ {S V : Type 0} where
  -- What the names and the list lead to is in the store.
  pub record IsPlaced (g : Engine S V) : Type 0 where
    pub named : All (λ x. x.1 < length g.store) g.elements_by_name
    pub listed : All (λ e. e < length g.store) g.elements

  register-IsPlaced :
      (g : Engine S V) (el : Element S V) (name : Name)
      → IsPlaced g
      → IsPlaced (register g el name).0
  unfolding register
  register-IsPlaced g el name placed =
      let n = length g.store in
      let size : length (g.store ++ el ∷ []) ≡ n + 1 = length-append g.store (el ∷ []) in
      let named = All-mono (λ x (h : x.1 < n). up h size) g.elements_by_name placed.named in
      let listed = All-mono (λ x (h : x < n). up h size) g.elements placed.listed in
      elim (Option-cases (find_name g.elements_by_name name)) [
        | inl free ↦
            rw (free, register)
              (record {
                named = (omega arith, named);
                listed = All-append (length (g.store ++ el ∷ [])) g.elements n listed (omega arith);
              })
        | inr (e, taken) ↦
            let old = find_name-lt n g.elements_by_name name e placed.named taken in
            rw (taken, register)
              (record {
                named = named;
                listed = All-append (length (g.store ++ el ∷ [])) g.elements e listed (omega arith);
              })
      ]
    where
      up : {x n m : ℕ} → x < n → m ≡ n + 1 → x < m
      up h k = omega arith

  sort_elements-IsPlaced :
      (fuel : ℕ) (g g' : Engine S V) → IsPlaced g → sort_elements fuel g ≡ some g' → IsPlaced g'
  sort_elements-IsPlaced fuel g g' placed h =
      let (es, same, perm) = sort_elements-Perm fuel g g' h in
      subst IsPlaced (sym same) (record {
        named = placed.named;
        listed = All-Perm (length g.store) es g.elements perm placed.listed;
      })

  -- Adding an element, under a free name or not, leaves no place outside the store.
  pub add_element-IsPlaced :
      (fuel : ℕ) (g g' : Engine S V) (el : Element S V) (name : Name) (e : ℕ)
      → IsPlaced g
      → add_element fuel g el name ≡ some (g', e)
      → IsPlaced g'
  unfolding add_element
  add_element-IsPlaced fuel g g' el name e placed h =
      let r = register g el name in
      let (sorted, e1, h1) = >>=-eq-some (sort_elements fuel r.0) _ h in
      sort_elements-IsPlaced fuel r.0 g' (register-IsPlaced g el name placed)
        (e1 ∙ ap (λ (x : Engine S V × ℕ). some x.0) (some_inj h1))

  length-connect :
      (store : Store S V) (out : ℕ) (out_name : Name) (in' : ℕ) (in_name : Name)
      → length (connect store out out_name in' in_name).0 ≡ length store
  length-connect store out out_name in' in_name = elim (Fits-cases store out out_name in' in_name) [
    | inl f ↦ rw (connect-Fits store out out_name in' in_name f) (length-set store in' _)
    | inr e ↦ rw e refl
  ]

  connect_input-IsPlaced :
      (g : Engine S V) (out : ℕ) (port : Name) (input : NetConnection)
      → IsPlaced g
      → IsPlaced (connect_input g out port input)
  unfolding connect_input
  connect_input-IsPlaced g out port input placed =
      elim (Option-cases (get_element g (c_string input.name))) [
        | inl n ↦ rw (n, connect_input) placed
        | inr (e, s) ↦
            let size = sym (length-connect g.store out port e (c_string input.port)) in
            rw (s, connect_input)
              (record {
                named = subst (λ n. All (λ x. x.1 < n) g.elements_by_name) size placed.named;
                listed = subst (λ n. All (λ x. x < n) g.elements) size placed.listed;
              })
      ]

  connect_inputs-IsPlaced :
      (g : Engine S V) (out : ℕ) (port : Name) (inputs : List NetConnection)
      → IsPlaced g
      → IsPlaced (connect_inputs g out port inputs)
  unfolding connect_inputs
  connect_inputs-IsPlaced g out port [] placed = placed
  connect_inputs-IsPlaced g out port (input ∷ inputs) placed =
      connect_inputs-IsPlaced (connect_input g out port input) out port inputs
        (connect_input-IsPlaced g out port input placed)

  -- Adding a net leaves no place outside the store.
  pub add_net-IsPlaced :
      (fuel : ℕ) (g g' : Engine S V) (net : Net)
      → IsPlaced g
      → add_net fuel g net ≡ some g'
      → IsPlaced g'
  unfolding add_net
  add_net-IsPlaced fuel g g' net placed h =
      elim (Option-cases (get_element g (c_string net.output.name))) [
        | inl n ↦
            let unchanged : add_net fuel g net ≡ some g = rw (n, add_net) refl in
            subst IsPlaced (some_inj (sym unchanged ∙ h)) placed
        | inr (out, s) ↦
            let inputs = take (u16 (length net.inputs)) net.inputs in
            let port = c_string net.output.port in
            let run : add_net fuel g net ≡ sort_elements fuel (connect_inputs g out port inputs) =
              rw (s, add_net) refl in
            sort_elements-IsPlaced fuel (connect_inputs g out port inputs) g'
              (connect_inputs-IsPlaced g out port inputs placed) (sym run ∙ h)
      ]
