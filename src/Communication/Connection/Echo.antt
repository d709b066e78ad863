-- ===== src/Communication/Connection/Echo.antt =====
-- How many bytes the line editor puts into `returnBuffer`, which has room for 64.
use logic_elements.Base.{
  ℕ, ◌+◌, ◌≤◌, ◌≡◌, refl, sym, ap, ◌∙◌, true, false, List, [], ◌∷◌, ◌++◌, Option, none, some, arith,
  Bool, ltb, if_true, if_false, if◌then◌else◌, if_cases, All, length, length-append, subst,
  some_inj,
}
use logic_elements.Communication.Connection.{
  Connection, Reading, in_buffer, reading, is_newline, is_escape, is_backspace, is_empty, pop_back,
  read_loop, read_to_buffer, is_single_escape, finish_line, key_reading, escape_sequence,
}
use logic_elements.Communication.Connection.Plain.{IsPlain, line_single}

-- What is read, if anything, echoes at most `n` bytes.
Echoes : ℕ → Option Reading → Type 0
Echoes n o = (r : Reading) → o ≡ some r → length r.echo ≤ n

reading-Echoes : (n : ℕ) (r : Reading) → length r.echo ≤ n → Echoes n (some r)
unfolding Echoes
reading-Echoes n r h q e = subst (λ (x : Reading). length x.echo ≤ n) (some_inj e) h

none≢some : (q : Reading) → none ≡ some q → ⊥
none≢some q e = cc

key_reading-Echoes :
    (n : ℕ) (o : Option (Connection × List (List ℕ))) (echo : List ℕ)
    → length echo ≤ n
    → Echoes n (key_reading o echo)
unfolding Echoes
key_reading-Echoes n none echo h = λ (q : Reading) (e : none ≡ some q). absurd (none≢some q e)
key_reading-Echoes n (some x) echo h = reading-Echoes n _ h

in_buffer-Echoes :
    (n : ℕ) (echo : List ℕ) (o : Option Reading) → Echoes n o → Echoes n (in_buffer echo o)
unfolding in_buffer Echoes
in_buffer-Echoes n echo o h =
    if_cases (Echoes n) (ltb 64 (length echo)) (λ _ (q : Reading) e. absurd (none≢some q e))
      (λ _. h)

read_loop-Echoes :
    (s : Connection) (bytes echo : List ℕ) (n : ℕ)
    → length echo + length bytes + 1 ≤ n
    → Echoes n (read_loop s bytes echo)
unfolding read_loop
read_loop-Echoes s [] echo n h = reading-Echoes n (reading s echo) (omega arith)
read_loop-Echoes s (c ∷ cs) echo n h =
    let longer : length (echo ++ c ∷ []) ≡ length echo + 1 =
      length-append echo (c ∷ []) ∙ omega arith in
    let crlf : length (echo ++ 13 ∷ 10 ∷ []) ≡ length echo + 2 =
      length-append echo (13 ∷ 10 ∷ []) ∙ omega arith in
    if_cases (Echoes n) (is_newline c)
      (λ _.
        in_buffer-Echoes n _ _
          (reading-Echoes n (reading (finish_line s) (echo ++ 13 ∷ 10 ∷ [])) (omega arith)))
      λ _.
        if_cases (Echoes n) (is_escape c)
          (λ _. key_reading-Echoes n (escape_sequence s cs) echo (omega arith))
          λ _.
            if_cases (Echoes n) (is_backspace c)
              (λ _. in_buffer-Echoes n _ _ (
                read_loop-Echoes (record s { char_buffer = pop_back s.char_buffer }) cs
                  (if is_empty s.char_buffer then echo else echo ++ c ∷ []) n
                  (if_cases (λ (l : List ℕ). length l + length cs + 1 ≤ n) (is_empty s.char_buffer)
                    (λ _. omega arith) (λ _. omega arith))))
              (λ _. in_buffer-Echoes n _ _ (
                read_loop-Echoes (record s { char_buffer = s.char_buffer ++ c ∷ [] }) cs
                  (echo ++ c ∷ []) n (omega arith)))

-- The echo has at most one byte more than was read.
pub read_to_buffer-echo_le :
    (s : Connection) (bytes : List ℕ) (r : Reading)
    → read_to_buffer s bytes ≡ some r
    → length r.echo ≤ length bytes + 1
unfolding read_to_buffer Echoes
read_to_buffer-echo_le s bytes =
    if_cases (Echoes (length bytes + 1)) (ltb 64 (length bytes))
      (λ _ (q : Reading) e. absurd (none≢some q e))
      λ _.
        if_cases (Echoes (length bytes + 1)) (is_single_escape bytes)
          (λ _.
            reading-Echoes _ (reading (record s { escape_key_requested = true }) []) (omega arith))
          λ _.
            if_cases (Echoes (length bytes + 1)) s.command_in_process
              (λ _. reading-Echoes _ (reading s []) (omega arith))
              (λ _. read_loop-Echoes s bytes [] (length bytes + 1) (omega arith))

if_none :
    (b : Bool) (o : Option Reading) (r : Reading)
    → (if b then none else o) ≡ some r
    → (b ≡ false) × (o ≡ some r)
if_none true o r e = absurd (none≢some r e)
if_none false o r e = (refl, e)

in_buffer-some :
    (echo : List ℕ) (o : Option Reading) (r : Reading)
    → in_buffer echo o ≡ some r
    → (length echo ≤ 64) × (o ≡ some r)
unfolding in_buffer
in_buffer-some echo o r e =
    let (fits, e') = if_none (ltb 64 (length echo)) o r e in (le_of_not_ltb fits, e')
  where
    le_of_not_ltb : ltb 64 (length echo) ≡ false → length echo ≤ 64
    le_of_not_ltb h = ground arith

-- Characters with a newline behind them: what was echoed had room.
read_loop-typed :
    (s : Connection) (xs rest echo : List ℕ) (c : ℕ) (r : Reading)
    → All (λ x. IsPlain x × (is_backspace x ≡ false)) xs
    → is_newline c ≡ true
    → read_loop s (xs ++ c ∷ rest) echo ≡ some r
    → (length r.echo ≡ length echo + length xs + 2) × (length r.echo ≤ 64)
unfolding read_loop
read_loop-typed s [] rest echo c r h n e =
    let ended = echo ++ 13 ∷ 10 ∷ [] in
    let (fits, e') = in_buffer-some ended _ r (sym (if_true (is_newline c) _ _ n) ∙ e) in
    let same : length ended ≡ length r.echo = ap (λ (q : Reading). length q.echo) (some_inj e') in
    let size = length-append echo (13 ∷ 10 ∷ []) in (omega arith, omega arith)
read_loop-typed s (x ∷ xs) rest echo c r (((n', e'), b), hs) n e =
    let longer = echo ++ x ∷ [] in
    let next =
      read_loop (record s { char_buffer = s.char_buffer ++ x ∷ [] }) (xs ++ c ∷ rest) longer in
    let step : read_loop s (x ∷ xs ++ c ∷ rest) echo ≡ in_buffer longer next =
      rw (n', e', b) refl in
    let (fits, e'') = in_buffer-some longer next r (sym step ∙ e) in
    let (size, room) =
      read_loop-typed (record s { char_buffer = s.char_buffer ++ x ∷ [] }) xs rest longer c r hs n
        e'' in
    let grown = length-append echo (x ∷ []) in (omega arith, room)

-- With no command in process, a read of characters that are no backspace, escape or newline, with a
-- newline behind them, where it stays inside the buffers echoes two bytes more than there are
-- characters, and there are at most 62 of these.
pub read_to_buffer-echo_overflow :
    (s : Connection) (xs rest : List ℕ) (c : ℕ) (r : Reading)
    → s.command_in_process ≡ false
    → All (λ x. IsPlain x × (is_backspace x ≡ false)) xs
    → is_newline c ≡ true
    → read_to_buffer s (xs ++ c ∷ rest) ≡ some r
    → (length r.echo ≡ length xs + 2) × (length xs ≤ 62)
unfolding read_to_buffer
read_to_buffer-echo_overflow s xs rest c r idle h n e =
    let bytes = xs ++ c ∷ rest in
    let (short, e1) = if_none (ltb 64 (length bytes)) _ r e in
    let e2 = sym (if_false (is_single_escape bytes) _ _ (line_single xs rest c n)) ∙ e1 in
    let e3 = sym (if_false s.command_in_process _ _ idle) ∙ e2 in
    let (size, room) = read_loop-typed s xs rest [] c r h n e3 in (omega arith, omega arith)
