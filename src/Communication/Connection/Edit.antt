-- ===== src/Communication/Connection/Edit.antt =====
-- What the line editor makes of the bytes of a line, in one reading or in several.
use logic_elements.Base.{
  ℕ, ◌≡◌, refl, sym, ap, ap₂, ◌∙◌, Bool, true, false, List, [], ◌∷◌, ◌++◌, Option, some, ◌≤◌,
  if◌then◌else◌, All, length, replicate, ◌>>=◌,
}
use mathlib.Core.List.{append_assoc}
use logic_elements.Communication.Connection.{
  Connection, Reading, reading, is_newline, is_empty, finish_line, read_line, pop_front, line_read,
  next_line, all_written,
}
use logic_elements.Communication.Connection.Plain.{
  IsPlain, edit, edit-append, echo_of, with_line, read_to_buffer-plain, read_to_buffer-line,
}

is_empty-append : (xs : List ℕ) (y : ℕ) (ys : List ℕ) → is_empty (xs ++ y ∷ ys) ≡ false
is_empty-append [] y ys = refl
is_empty-append (x ∷ xs) y ys = refl

-- The state after the end of a line: the line is in the history, unless it is empty.
abbrev pub committed : Connection → List ℕ → Connection
committed s line = record (finish_line (with_line s line)) { line_buffer = [] }

module _ (s : Connection) (idle : s.command_in_process ≡ false) (empty : s.line_buffer ≡ []) where
  read_line-plain :
      (xs : List ℕ)
      → All IsPlain xs
      → length xs ≤ 64
      → read_line s xs
        ≡ some (
          with_line s (edit s.char_buffer xs),
          [],
          all_written (reading s (echo_of s.char_buffer xs)),
        )
  unfolding read_line next_line pop_front
  read_line-plain xs h fits =
      ap (next_line s xs) empty
      ∙ ap (λ (r : Option Reading). r >>= λ x. some (line_read x))
          (read_to_buffer-plain s idle xs h fits)
      ∙ ap
          (λ (q : List (List ℕ)).
            let p = pop_front (with_line s (edit s.char_buffer xs)) q in
            some (p.0, p.1, all_written (reading s (echo_of s.char_buffer xs))))
          empty

  read_line-line :
      (xs rest : List ℕ) (c : ℕ)
      → All IsPlain xs
      → is_newline c ≡ true
      → length (xs ++ c ∷ rest) ≤ 64
      → length xs ≤ 62
      → read_line s (xs ++ c ∷ rest)
        ≡ some (
          committed s (edit s.char_buffer xs),
          edit s.char_buffer xs,
          (echo_of s.char_buffer xs ++ 13 ∷ 10 ∷ []) ∷ [],
        )
  unfolding read_line next_line pop_front finish_line
  read_line-line xs rest c h n fits room =
      ap (next_line s (xs ++ c ∷ rest)) empty
      ∙ ap (λ (r : Option Reading). r >>= λ x. some (line_read x))
          (read_to_buffer-line s idle xs rest c h n fits room)
      ∙ ap₂
          (λ (q : List (List ℕ)) (b : Bool).
            let line = edit s.char_buffer xs in
            let echo = echo_of s.char_buffer xs ++ 13 ∷ 10 ∷ [] in
            let p = pop_front (finish_line (with_line s line)) (q ++ line ∷ []) in
            some (p.0, p.1, if b then [] else echo ∷ []))
          empty (is_empty-append (echo_of s.char_buffer xs) 13 (10 ∷ []))

-- The lines that the client gets over several readings.
unfoldable pub read_lines : Connection → List (List ℕ) → Option (Connection × List (List ℕ))
read_lines s [] = some (s, [])
read_lines s (chunk ∷ chunks) = do
  r ← read_line s chunk
  q ← read_lines r.0 chunks
  some (q.0, r.1 ∷ q.1)

-- The pieces, joined.
abbrev pub joined : List (List ℕ) → List ℕ
joined [] = []
joined (xs ∷ xss) = xs ++ joined xss

pub read_lines-typed :
    (s : Connection) (pieces : List (List ℕ)) (xs rest : List ℕ) (c : ℕ)
    → s.command_in_process ≡ false
    → s.line_buffer ≡ []
    → All (λ p. All IsPlain p × (length p ≤ 64)) pieces
    → All IsPlain xs
    → is_newline c ≡ true
    → length (xs ++ c ∷ rest) ≤ 64
    → length xs ≤ 62
    → let line = edit s.char_buffer (joined pieces ++ xs) in
      read_lines s (pieces ++ (xs ++ c ∷ rest) ∷ [])
      ≡ some (committed s line, replicate (length pieces) [] ++ line ∷ [])
unfolding read_lines
read_lines-typed s [] xs rest c idle empty hs h n fits room =
    rw (read_line-line s idle empty xs rest c h n fits room) refl
read_lines-typed s (p ∷ pieces) xs rest c idle empty ((hp, short), hs) h n fits room =
    let t = with_line s (edit s.char_buffer p) in
    let same : edit t.char_buffer (joined pieces ++ xs)
        ≡ edit s.char_buffer ((p ++ joined pieces) ++ xs) =
      sym (edit-append s.char_buffer p (joined pieces ++ xs))
      ∙ ap (edit s.char_buffer) (sym (append_assoc p (joined pieces) xs)) in
    rw
      (
        read_line-plain s idle empty p hp short,
        read_lines-typed t pieces xs rest c idle empty hs h n fits room,
      )
      (ap
        (λ (line : List ℕ).
          some (committed s line, [] ∷ (replicate (length pieces) [] ++ line ∷ [])))
        same)
