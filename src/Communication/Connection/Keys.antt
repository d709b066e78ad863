-- ===== src/Communication/Connection/Keys.antt =====
-- The arrow keys and the history: where a key reads, and what it shows.
use logic_elements.Base.{
  ℕ, zero, suc, ◌+◌, ◌-◌, ◌%◌, ◌^◌, ◌<◌, ◌≤◌, ◌≡◌, refl, sym, ap, ap₂, ◌∙◌, List, [], ◌∷◌, ◌++◌,
  Option, none, some, arith, length, ◌==◌, if◌then◌else◌, lt→ltb, not_ltb, if_cases, subst, get_or,
  get_elem?_lt, min, ◌>>=◌,
}
use native.Mathlib.Decide.{dec_lt}
use native.Mathlib.Nat.{le_refl}
use logic_elements.Base.Int.{ℤ, pos, negsuc}
use logic_elements.Communication.Connection.{
  Connection, handle_special_key, show_entry, key_up, key_down, history_end, prompt, clear_to_end,
}

-- The index is that of an entry, or just past the last one; the history has fewer entries than an
-- `int` counts, and is not empty.
pub record InHistory (s : Connection) (i : ℕ) : Type 0 where
  pub index_eq : s.history_index ≡ pos i
  pub index_le : i ≤ length s.command_history
  pub not_empty : 0 < length s.command_history
  pub history_lt : length s.command_history < 2 ^ 31

-- The line at an index: the entry, or the empty line past the last one.
abbrev pub line_at : Connection → ℕ → List ℕ
line_at s i = get_or s.command_history i []

-- The line at an index in the editor, and on the screen.
abbrev pub show_line : Connection → ℕ → Connection × List (List ℕ)
show_line s i = (
  record s { history_index = pos i; char_buffer = line_at s i },
  (prompt ++ (line_at s i ++ clear_to_end)) ∷ [],
)

get_or_ge {ℓ} : {A : Type ℓ} (xs : List A) (i : ℕ) (d : A) → length xs ≤ i → get_or xs i d ≡ d
get_or_ge [] i d h = refl
get_or_ge (x ∷ xs) zero d h = absurd (omega arith)
get_or_ge (x ∷ xs) (suc i) d h = get_or_ge xs i d (omega arith)

show_entry_lt :
    (s : Connection) (i : ℕ)
    → i < length s.command_history
    → show_entry s (pos i) ≡ some (show_line s i)
unfolding show_entry
show_entry_lt s i h = rw (get_elem?_lt s.command_history i [] h) refl

history_end_eq :
    (s : Connection)
    → length s.command_history < 2 ^ 31
    → history_end s ≡ pos (length s.command_history)
history_end_eq s h =
    let n : ℕ = length s.command_history in
    let low : (n + (2 ^ 32 - 0)) % 2 ^ 32 ≡ n = omega arith in ground arith

key_up_lem :
    (s : Connection) (i : ℕ)
    → i ≤ length s.command_history
    → key_up s (pos i) ≡ (if i == 0 then some (s, []) else some (show_line s (i - 1)))
unfolding key_up
key_up_lem s zero h = refl
key_up_lem s (suc i) h =
    rw (lt→ltb 0 (suc i) (omega arith), show_entry_lt s (suc i - 1) (omega arith)) (ground arith)

key_down_lem :
    (s : Connection) (i : ℕ)
    → i ≤ length s.command_history
    → 0 < length s.command_history
    → length s.command_history < 2 ^ 31
    → key_down s (pos i) ≡ some (show_line s (min (i + 1) (length s.command_history)))
unfolding key_down
key_down_lem s i h pos_len small =
    let n : ℕ = length s.command_history in
    let last : (n + 2 ^ 64 - 1) % 2 ^ 64 ≡ n - 1 = omega arith in
    elim (dec_lt (i + 1) n) [
      | yes p ↦
          let j : min (i + 1) n ≡ i + 1 = omega arith in
          rw (last, lt→ltb i (n - 1) (omega arith), j) (show_entry_lt s (i + 1) p)
      | no p ↦
          let j : min (i + 1) n ≡ n = omega arith in
          rw
            (
              last,
              not_ltb i (n - 1) (omega arith),
              j,
              history_end_eq s small,
              get_or_ge s.command_history n [] (le_refl n),
            )
            refl
    ]

-- Where the index is that of an entry of a history that is not empty and has fewer than 2 ^ 31
-- entries, or just past the last, Up shows the entry before it, or does nothing at the first, and
-- Down shows the entry after it, or the empty line past the last.
pub handle_special_key-arrows :
    (s : Connection) (i : ℕ)
    → InHistory s i
    → (handle_special_key s 65 ≡ (if i == 0 then some (s, []) else some (show_line s (i - 1))))
      × (handle_special_key s 66 ≡ some (show_line s (min (i + 1) (length s.command_history))))
unfolding handle_special_key
handle_special_key-arrows s i v = (
  ap (key_up s) v.index_eq ∙ key_up_lem s i v.index_le,
  ap (key_down s) v.index_eq ∙ key_down_lem s i v.index_le v.not_empty v.history_lt,
)

-- The state after the keys.
abbrev pub press : Connection → List ℕ → Option Connection
press s [] = some s
press s (key ∷ keys) = do (t, out) ← handle_special_key s key; press t keys

show_line-InHistory :
    (s : Connection) (i j : ℕ)
    → InHistory s i
    → j ≤ length s.command_history
    → InHistory (show_line s j).0 j
show_line-InHistory s i j v h = record {
  index_eq = refl;
  index_le = h;
  not_empty = v.not_empty;
  history_lt = v.history_lt;
}

-- One key, with what it leaves.
Pressed : Connection → Option (Connection × List (List ℕ)) → Type 0
Pressed s r =
    (t : Connection) × (out : List (List ℕ)) × (j : ℕ) × (r ≡ some (t, out))
    × InHistory t j
    × (t.command_history ≡ s.command_history)

handle_special_key-Pressed :
    (s : Connection) (i key : ℕ) → InHistory s i → Pressed s (handle_special_key s key)
unfolding handle_special_key Pressed
handle_special_key-Pressed s i key v =
    let n : ℕ = length s.command_history in
    let (up, down) = handle_special_key-arrows s i v in
    let stay : Pressed s (some (s, [])) = (s, [], i, refl, v, refl) in
    let show : (j : ℕ) → j ≤ n → Pressed s (some (show_line s j)) =
      λ j h. ((show_line s j).0, (show_line s j).1, j, refl, show_line-InHistory s i j v h, refl) in
    if_cases (Pressed s) (key == 65)
      (λ e.
        subst (Pressed s) (sym up) (
          if_cases (Pressed s) (i == 0) (λ z. stay)
            (λ z. show (i - 1) (omega (arith, v.index_le)))))
      (λ e.
        if_cases (Pressed s) (key == 66)
          (λ e'. subst (Pressed s) (sym down) (show (min (i + 1) n) (omega arith))) (λ e'. stay))

-- Where the index is that of an entry of a history that is not empty and has fewer than 2 ^ 31
-- entries, or just past the last, any keys leave it so, change no entry, and read no entry outside
-- the history.
pub press-InHistory :
    (s : Connection) (i : ℕ) (keys : List ℕ)
    → InHistory s i
    → (t : Connection) × (j : ℕ) × (press s keys ≡ some t)
      × InHistory t j
      × (t.command_history ≡ s.command_history)
unfolding Pressed
press-InHistory s i [] v = (s, i, refl, v, refl)
press-InHistory s i (key ∷ keys) v =
    let (t, out, j, e, v', same) = handle_special_key-Pressed s i key v in
    let (u, k, e', v'', same') = press-InHistory t j keys v' in (u, k, rw e e', v'', same' ∙ same)

key_down_empty :
    (s : Connection) (n : ℕ)
    → n < 2 ^ 31
    → key_down (record s { command_history = [] }) (pos n) ≡ none
unfolding key_down show_entry
key_down_empty s n h = rw (lt→ltb n (2 ^ 64 - 1) (omega arith)) refl

key_down_first :
    (s : Connection)
    → key_down (record s { command_history = []; history_index = negsuc 0 }) (negsuc 0)
      ≡ some (
        record s { command_history = []; history_index = pos 0; char_buffer = [] },
        (prompt ++ clear_to_end) ∷ [],
      )
unfolding key_down
key_down_first s = refl

down_twice :
    (s : Connection)
    → press (record s { command_history = []; history_index = negsuc 0 }) (66 ∷ 66 ∷ []) ≡ none
unfolding handle_special_key
down_twice s =
    ap
      (λ (r : Option (Connection × List (List ℕ))).
        r >>= λ x. handle_special_key x.0 66 >>= λ y. some y.0)
      (key_down_first s)
    ∙ ap (λ (r : Option (Connection × List (List ℕ))). r >>= λ y. some y.0)
        (key_down_empty (record s { history_index = pos 0; char_buffer = [] }) 0 (omega arith))

-- On a connection with an empty history and its first history index, two Down keys read the history
-- outside its end.
pub press-down_twice :
    (s : Connection)
    → s.command_history ≡ []
    → s.history_index ≡ negsuc 0
    → press s (66 ∷ 66 ∷ []) ≡ none
press-down_twice s empty index =
    subst (λ (t : Connection). press t (66 ∷ 66 ∷ []) ≡ none)
      (ap₂ (λ (h : List (List ℕ)) (i : ℤ). record s { command_history = h; history_index = i })
        (sym empty) (sym index))
      (down_twice s)
