-- ===== src/Communication/Connection/Plain.antt =====
-- What the line editor makes of a read of plain bytes, and of one with the end of a line.
use logic_elements.Base.{
  ℕ, ◌≡◌, refl, sym, ap, ◌∙◌, Bool, true, false, ◌&&◌, List, [], ◌∷◌, ◌++◌, Option, some, arith,
  ltb, not_ltb, ◌+◌, ◌≤◌, if_cases, length-append, if◌then◌else◌, All, length, if_true, if_false,
  Bool-cases, inl, inr,
}
use mathlib.Core.List.{append_assoc, append-nil}
use logic_elements.Communication.Connection.{
  Connection, Reading, in_buffer, reading, is_newline, is_escape, is_backspace, is_empty, pop_back,
  read_loop, read_to_buffer, is_single_escape, finish_line,
}

-- A byte that is neither the end of a line nor an escape.
abbrev pub IsPlain : ℕ → Type 0
IsPlain c = (is_newline c ≡ false) × (is_escape c ≡ false)

-- A line after more bytes: each is a further character, or takes the last one away.
abbrev pub edit_one : List ℕ → ℕ → List ℕ
edit_one line c = if is_backspace c then pop_back line else line ++ c ∷ []

unfoldable pub edit : List ℕ → List ℕ → List ℕ
edit line [] = line
edit line (c ∷ cs) = edit (edit_one line c) cs

-- The echo: not of a byte that had nothing to take away.
abbrev pub echo_one : List ℕ → ℕ → List ℕ
echo_one line c = if is_backspace c && is_empty line then [] else c ∷ []

unfoldable pub echo_of : List ℕ → List ℕ → List ℕ
echo_of line [] = []
echo_of line (c ∷ cs) = echo_one line c ++ echo_of (edit_one line c) cs

abbrev pub with_line : Connection → List ℕ → Connection
with_line s line = record s { char_buffer = line }

if_append :
    (b : Bool) (xs ys : List ℕ) → (if b then xs else xs ++ ys) ≡ xs ++ (if b then [] else ys)
if_append true xs ys = sym (append-nil xs)
if_append false xs ys = refl

pub in_buffer_fits : (echo : List ℕ) (o : Option Reading) → length echo ≤ 64 → in_buffer echo o ≡ o
unfolding in_buffer
in_buffer_fits echo o h =
    if_false (ltb 64 (length echo)) _ _ (not_ltb 64 (length echo) (omega arith))

echo_one_le : (line : List ℕ) (c : ℕ) → length (echo_one line c) ≤ 1
echo_one_le line c =
    if_cases (λ (l : List ℕ). length l ≤ 1) (is_backspace c && is_empty line) (λ _. omega arith)
      (λ _. omega arith)

pub echo_of_le : (line xs : List ℕ) → length (echo_of line xs) ≤ length xs
unfolding echo_of
echo_of_le line [] = omega arith
echo_of_le line (c ∷ cs) = omega (
  arith,
  length-append (echo_one line c) (echo_of (edit_one line c) cs),
  echo_one_le line c,
  echo_of_le (edit_one line c) cs,
)

-- One plain byte.
read_loop-plain :
    (s : Connection) (c : ℕ) (cs echo : List ℕ)
    → IsPlain c
    → length echo + 1 ≤ 64
    → read_loop s (c ∷ cs) echo
      ≡ read_loop (with_line s (edit_one s.char_buffer c)) cs (echo ++ echo_one s.char_buffer c)
unfolding read_loop
read_loop-plain s c cs echo (n, e) fits =
    let longer : length (echo ++ c ∷ []) ≤ 64 = omega (arith, length-append echo (c ∷ [])) in
    elim (Bool-cases (is_backspace c)) [
      | inl b ↦
          let shown = if is_empty s.char_buffer then echo else echo ++ c ∷ [] in
          let room : length shown ≤ 64 =
            if_cases (λ (l : List ℕ). length l ≤ 64) (is_empty s.char_buffer) (λ _. omega arith)
              (λ _. longer) in
          rw (n, e, b)
            (in_buffer_fits shown _ room
              ∙ ap (read_loop (with_line s (pop_back s.char_buffer)) cs)
                  (if_append (is_empty s.char_buffer) echo (c ∷ [])))
      | inr b ↦ rw (n, e, b) (in_buffer_fits (echo ++ c ∷ []) _ longer)
    ]

-- Plain bytes, in front of others.
pub read_loop-append :
    (s : Connection) (xs ys echo : List ℕ)
    → All IsPlain xs
    → length echo + length xs ≤ 64
    → read_loop s (xs ++ ys) echo
      ≡ read_loop (with_line s (edit s.char_buffer xs)) ys (echo ++ echo_of s.char_buffer xs)
unfolding edit echo_of
read_loop-append s [] ys echo h fits = ap (read_loop s ys) (sym (append-nil echo))
read_loop-append s (x ∷ xs) ys echo (h, hs) fits =
    let one = echo_one s.char_buffer x in
    let room : length (echo ++ one) + length xs ≤ 64 =
      omega (arith, length-append echo one, echo_one_le s.char_buffer x) in
    read_loop-plain s x (xs ++ ys) echo h (omega arith)
    ∙ read_loop-append (with_line s (edit_one s.char_buffer x)) xs ys (echo ++ one) hs room
    ∙ ap (read_loop (with_line s (edit (edit_one s.char_buffer x) xs)) ys)
        (append_assoc echo one (echo_of (edit_one s.char_buffer x) xs))

pub edit-append : (line xs ys : List ℕ) → edit line (xs ++ ys) ≡ edit (edit line xs) ys
unfolding edit
edit-append line [] ys = refl
edit-append line (x ∷ xs) ys = edit-append (edit_one line x) xs ys

plain_single : (xs : List ℕ) → All IsPlain xs → is_single_escape xs ≡ false
plain_single [] h = refl
plain_single (x ∷ []) h = h.0.1
plain_single (x ∷ y ∷ xs) h = refl

pub line_single :
    (xs rest : List ℕ) (c : ℕ) → is_newline c ≡ true → is_single_escape (xs ++ c ∷ rest) ≡ false
line_single [] [] c n = ground arith
line_single [] (r ∷ rest) c n = refl
line_single (x ∷ []) rest c n = refl
line_single (x ∷ y ∷ xs) rest c n = refl

pub read_to_buffer-idle :
    (s : Connection) (bytes : List ℕ)
    → s.command_in_process ≡ false
    → is_single_escape bytes ≡ false
    → length bytes ≤ 64
    → read_to_buffer s bytes ≡ read_loop s bytes []
unfolding read_to_buffer
read_to_buffer-idle s bytes idle single fits =
    if_false (ltb 64 (length bytes)) _ _ (not_ltb 64 (length bytes) (omega arith))
    ∙ if_false (is_single_escape bytes) _ _ single
    ∙ if_false s.command_in_process _ _ idle

read_loop-newline :
    (s : Connection) (c : ℕ) (rest echo : List ℕ)
    → is_newline c ≡ true
    → length echo + 2 ≤ 64
    → read_loop s (c ∷ rest) echo ≡ some (reading (finish_line s) (echo ++ 13 ∷ 10 ∷ []))
unfolding read_loop
read_loop-newline s c rest echo n fits =
    if_true (is_newline c) _ _ n
    ∙ in_buffer_fits (echo ++ 13 ∷ 10 ∷ []) _ (omega (arith, length-append echo (13 ∷ 10 ∷ [])))

read_loop-done : (s : Connection) (echo : List ℕ) → read_loop s [] echo ≡ some (reading s echo)
unfolding read_loop
read_loop-done s echo = refl

module _ (s : Connection) (idle : s.command_in_process ≡ false) where
  -- A reading of plain bytes only.
  pub read_to_buffer-plain :
      (xs : List ℕ)
      → All IsPlain xs
      → length xs ≤ 64
      → read_to_buffer s xs
        ≡ some (reading (with_line s (edit s.char_buffer xs)) (echo_of s.char_buffer xs))
  read_to_buffer-plain xs h fits =
      read_to_buffer-idle s xs idle (plain_single xs h) fits
      ∙ ap (λ (l : List ℕ). read_loop s l []) (sym (append-nil xs))
      ∙ read_loop-append s xs [] [] h (omega arith)
      ∙ read_loop-done (with_line s (edit s.char_buffer xs)) (echo_of s.char_buffer xs)

  -- A reading with the end of a line after plain bytes.
  pub read_to_buffer-line :
      (xs rest : List ℕ) (c : ℕ)
      → All IsPlain xs
      → is_newline c ≡ true
      → length (xs ++ c ∷ rest) ≤ 64
      → length xs ≤ 62
      → read_to_buffer s (xs ++ c ∷ rest)
        ≡ some (
            reading
              (finish_line (with_line s (edit s.char_buffer xs)))
              (echo_of s.char_buffer xs ++ 13 ∷ 10 ∷ []))
  read_to_buffer-line xs rest c h n fits room =
      read_to_buffer-idle s (xs ++ c ∷ rest) idle (line_single xs rest c n) fits
      ∙ read_loop-append s xs (c ∷ rest) [] h (omega arith)
      ∙ read_loop-newline (with_line s (edit s.char_buffer xs)) c rest (echo_of s.char_buffer xs) n
          (omega (arith, echo_of_le s.char_buffer xs))
