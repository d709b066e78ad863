-- ===== src/Elements/Ser/Previous.antt =====
-- What `SER::Update` keeps for the next update: the value of each input.
use native.Mathlib.Nat.{add-zero, zero-add}
use logic_elements.Base.{
  subst, get_or-set_self, get_or-set_ne, ℕ, zero, suc, ◌+◌, ◌≤◌, ◌<◌, ◌≡◌, refl, sym, ap, ◌∙◌, ◌≢◌,
  Bool, true, false, List, [], ◌∷◌, Option, none, some, arith, length, get_or, Bool-cases, inl, inr,
  length-set,
}
use logic_elements.Time.{Time}
use logic_elements.Elements.Ser.{Ser, log_event, differs, record_port, record_ports, ser_update}

-- The values kept: those of the connected ports.
abbrev pub kept : List (Option (ℕ × Bool)) → ℕ → Bool → Bool
kept [] i old = old
kept (none ∷ ports) zero old = old
kept (some (owner, current) ∷ ports) zero old = current
kept (o ∷ ports) (suc i) old = kept ports i old

same_unless_differs : (a b : Bool) → differs a b ≡ false → b ≡ a
same_unless_differs true true e = refl
same_unless_differs true false e = cc
same_unless_differs false true e = cc
same_unless_differs false false e = refl

record_port_ne :
    (s : Ser) (now : Time) (i k : ℕ) (o : Option (ℕ × Bool))
    → i ≢ k
    → get_or (record_port s now i o).prev_state k false ≡ get_or s.prev_state k false
unfolding record_port log_event
record_port_ne s now i k none h = refl
record_port_ne s now i k (some (owner, current)) h =
    elim (Bool-cases (differs current (get_or s.prev_state i false))) [
      | inl e ↦ rw e (get_or-set_ne s.prev_state current false h)
      | inr e ↦ rw e
    ]

record_port_self :
    (s : Ser) (now : Time) (i : ℕ) (o : Option (ℕ × Bool))
    → i < length s.prev_state
    → get_or (record_port s now i o).prev_state i false
      ≡ kept (o ∷ []) 0 (get_or s.prev_state i false)
unfolding record_port log_event
record_port_self s now i none h = refl
record_port_self s now i (some (owner, current)) h =
    elim (Bool-cases (differs current (get_or s.prev_state i false))) [
      | inl e ↦ rw e (get_or-set_self s.prev_state i current false h)
      | inr e ↦ rw e (same_unless_differs current (get_or s.prev_state i false) e)
    ]

length-record_port :
    (s : Ser) (now : Time) (i : ℕ) (o : Option (ℕ × Bool))
    → length (record_port s now i o).prev_state ≡ length s.prev_state
unfolding record_port log_event
length-record_port s now i none = refl
length-record_port s now i (some (owner, current)) =
    elim (Bool-cases (differs current (get_or s.prev_state i false))) [
      | inl e ↦ rw e (length-set s.prev_state i current)
      | inr e ↦ rw e
    ]

record_ports_before :
    (s : Ser) (now : Time) (i k : ℕ) (ports : List (Option (ℕ × Bool)))
    → k < i
    → get_or (record_ports s now i ports).prev_state k false ≡ get_or s.prev_state k false
unfolding record_ports
record_ports_before s now i k [] h = refl
record_ports_before s now i k (o ∷ ports) h =
    record_ports_before (record_port s now i o) now (i + 1) k ports (omega arith)
    ∙ record_port_ne s now i k o (λ e. omega arith)

kept_head :
    (o : Option (ℕ × Bool)) (ports : List (Option (ℕ × Bool))) (b : Bool)
    → kept (o ∷ []) 0 b ≡ kept (o ∷ ports) 0 b
kept_head none ports b = refl
kept_head (some (owner, current)) ports b = refl

kept_tail :
    (o : Option (ℕ × Bool)) (ports : List (Option (ℕ × Bool))) (m : ℕ) (b : Bool)
    → kept (o ∷ ports) (suc m) b ≡ kept ports m b
kept_tail none ports m b = refl
kept_tail (some (owner, current)) ports m b = refl

record_ports_at :
    (s : Ser) (now : Time) (i m : ℕ) (ports : List (Option (ℕ × Bool)))
    → m < length ports
    → i + length ports ≤ length s.prev_state
    → get_or (record_ports s now i ports).prev_state (i + m) false
      ≡ kept ports m (get_or s.prev_state (i + m) false)
unfolding record_ports
record_ports_at s now i m [] h fits = absurd (omega arith)
record_ports_at s now i zero (o ∷ ports) h fits = rw (add-zero i) (
    record_ports_before (record_port s now i o) now (i + 1) i ports (omega arith)
    ∙ record_port_self s now i o (omega arith)
    ∙ kept_head o ports (get_or s.prev_state i false))
record_ports_at s now i (suc m) (o ∷ ports) h fits =
    let s' = record_port s now i o in
    subst
      (λ (k : ℕ).
        get_or (record_ports s' now (i + 1) ports).prev_state k false
        ≡ kept (o ∷ ports) (suc m) (get_or s.prev_state k false))
      (shift i m)
      (record_ports_at s' now (i + 1) m ports (omega arith)
          (omega (arith, length-record_port s now i o))
        ∙ ap (kept ports m) (record_port_ne s now i (i + 1 + m) o (λ e. omega arith))
        ∙ sym (kept_tail o ports m (get_or s.prev_state (i + 1 + m) false)))
  where
    shift : (i m : ℕ) → i + 1 + m ≡ i + suc m
    shift i m = omega arith

-- After an update of a recorder with a place for each port, the recorded value of a port is its
-- reading where it is connected, and what it was where it is not.
pub prev_state-ser_update :
    (s : Ser) (now : Time) (ports : List (Option (ℕ × Bool))) (m : ℕ)
    → m < length ports
    → length ports ≤ length s.prev_state
    → get_or (ser_update s now ports).prev_state m false
      ≡ kept ports m (get_or s.prev_state m false)
unfolding ser_update
prev_state-ser_update s now ports m h fits =
    subst
      (λ (k : ℕ).
        get_or (record_ports s now 0 ports).prev_state k false
        ≡ kept ports m (get_or s.prev_state k false))
      (zero-add m) (record_ports_at s now 0 m ports h (omega arith))
