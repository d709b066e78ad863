-- ===== src/Core/Node/History.antt =====
-- The history of a node: the ring, against the list of the last values, newest first.
use native.Mathlib.Nat.{mod-lt}
use logic_elements.Base.{
  ℕ, suc, ◌+◌, ◌-◌, ◌<◌, ◌≡◌, refl, sym, ap, ap₂, ◌∙◌, Bool, true, false, List, ◌∷◌, Option, none,
  some, if◌then◌else◌, take, length, length-set, arith,
}
use logic_elements.Base.Ring.{window, window_push}
use logic_elements.Time.{Time, subtract}
use logic_elements.Core.Node.{
  FloatOps, Node, step_override, read_node_input, write_history, node_update,
}

if_both {ℓ} :
    {A : Type ℓ} (P : A → Type 0) (t : Bool) (a b : A) → P a → P b → P (if t then a else b)
if_both P true a b p q = p
if_both P false a b p q = q

module _ {T F : Type 0} (ops : FloatOps F) (d : T) where
  -- The history, newest value first.
  abbrev pub recent : Node T F → List T
  recent n = window n.history_length d n.history (suc n.write) n.history_length

  pub record IsValid (n : Node T F) : Type 0 where
    pub size : length n.history ≡ n.history_length
    pub write_in : n.write < n.history_length

  write_history-recent :
      (n : Node T F)
      → IsValid n
      → IsValid (write_history ops n)
        × (recent (write_history ops n) ≡ n.output ∷ take (n.history_length - 1) (recent n))
  unfolding write_history
  write_history-recent n v =
      let cap = n.history_length in
      (
        record {
          size = length-set n.history n.write n.output ∙ v.size;
          write_in = mod-lt (n.write + cap - 1) (omega (arith, v.write_in));
        },
        window_push cap d n.history n.write n.output v.size v.write_in,
      )

  -- What an update without its history part leaves.
  abbrev settled : Node T F → Time → Option T → Node T F
  settled n now input =
      read_node_input ops
        (step_override ops (record n { last_time_stamp = now })
          (ops.f_seconds (subtract now n.last_time_stamp)))
        input

  record SameRing (n m : Node T F) : Type 0 where
    length_is : m.history_length ≡ n.history_length
    history_is : m.history ≡ n.history
    write_is : m.write ≡ n.write

  same_ring : (n : Node T F) → SameRing n n
  same_ring n = record { length_is = refl; history_is = refl; write_is = refl }

  step_override-SameRing : (n : Node T F) (step : F) → SameRing n (step_override ops n step)
  unfolding step_override
  step_override-SameRing n step =
      if_both (SameRing n) n.is_overridden _ _
        (if_both (SameRing n) (ops.f_greater n.override_timer n.override_duration) _ _
          (record { length_is = refl; history_is = refl; write_is = refl })
          (record { length_is = refl; history_is = refl; write_is = refl }))
        (same_ring n)

  read_node_input-SameRing :
      (n : Node T F) (input : Option T) → SameRing n (read_node_input ops n input)
  unfolding read_node_input
  read_node_input-SameRing n none = same_ring n
  read_node_input-SameRing n (some v) =
      if_both (SameRing n) n.is_overridden _ _ (same_ring n)
        (record { length_is = refl; history_is = refl; write_is = refl })

  settled-SameRing :
      (n : Node T F) (now : Time) (input : Option T) → SameRing n (settled n now input)
  settled-SameRing n now input =
      let started = record n { last_time_stamp = now } in
      let step = ops.f_seconds (subtract now n.last_time_stamp) in
      let a = step_override-SameRing started step in
      let b = read_node_input-SameRing (step_override ops started step) input in
      record {
        length_is = b.length_is ∙ a.length_is;
        history_is = b.history_is ∙ a.history_is;
        write_is = b.write_is ∙ a.write_is;
      }

  recent-SameRing : (n m : Node T F) → SameRing n m → recent m ≡ recent n
  recent-SameRing n m s =
      ap₂ (λ (len : ℕ) (buf : List T). window len d buf (suc m.write) len) s.length_is s.history_is
      ∙ ap (λ (w : ℕ). window n.history_length d n.history (suc w) n.history_length) s.write_is

  write_history-output : (m : Node T F) → (write_history ops m).output ≡ m.output
  unfolding write_history
  write_history-output m = refl

  -- With a ring of the node's history length and a write index inside it, an update puts the output
  -- that it leaves in front of the history, newest value first, of which the oldest is dropped, and
  -- keeps the ring valid, for any float operations, override and input.
  pub node_update-recent :
      (n : Node T F) (now : Time) (input : Option T)
      → IsValid n
      → let n' = node_update ops n now input in
        IsValid n' × (recent n' ≡ n'.output ∷ take (n.history_length - 1) (recent n))
  unfolding node_update
  node_update-recent n now input v =
      let m = settled n now input in
      let s = settled-SameRing n now input in
      let valid : IsValid m = record {
        size = ap length s.history_is ∙ v.size ∙ sym s.length_is;
        write_in = omega (arith, s.write_is, s.length_is, v.write_in);
      } in
      let (valid', front) = write_history-recent m valid in
      (
        valid',
        front
            ∙ ap₂ (λ (x : T) (l : List T). x ∷ l) (sym (write_history-output m))
                (ap₂ (λ (len : ℕ) (l : List T). take (len - 1) l) s.length_is
                  (recent-SameRing n m s)),
      )
