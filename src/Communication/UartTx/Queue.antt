-- ===== src/Communication/UartTx/Queue.antt =====
-- The transmission buffer as a queue of bytes.
use native.Mathlib.Nat.{mod-lt, mod-eq_of_lt, add-zero, mod-add-mod}
use mathlib.Core.List.{append_assoc, append-nil}
use logic_elements.Base.{
  ℕ, zero, suc, ◌+◌, ◌-◌, ◌%◌, ◌≤◌, ◌<◌, ◌≡◌, refl, sym, ap, ap₂, subst, ◌∙◌, false, List, [], ◌∷◌,
  ◌++◌, some, leb, if◌then◌else◌, length, set, take, drop, take-append-drop, length-take,
  length-drop, length-set, arith,
}
use logic_elements.Base.Ring.{window, window-set_end}
use logic_elements.Communication.UartTx.{
  UartTx, copy_to, available_space, chunk, write_chunk, write_loop,
}

-- The bytes of the buffer that are not free.
abbrev pub used : UartTx → ℕ
used u = u.buffer_size - available_space u

-- The bytes that are still to be sent, oldest first.
abbrev pub pending : UartTx → List ℕ
pending u = window u.buffer_size 0 u.buffer u.read (used u)

pub record IsValid (u : UartTx) : Type 0 where
  pub size : length u.buffer ≡ u.buffer_size
  pub write_in : u.write < u.buffer_size
  pub read_in : u.read < u.buffer_size
  pub room : u.buffer_full ≡ false
  pub ready :
      u.data_ready_to_send
      ≡ (if leb u.read u.write then u.write - u.read else u.buffer_size - u.read)

length-copy_to : (buf : List ℕ) (i : ℕ) (bs : List ℕ) → length (copy_to buf i bs) ≡ length buf
unfolding copy_to
length-copy_to buf i [] = refl
length-copy_to buf i (b ∷ bs) = length-copy_to (set buf i b) (suc i) bs ∙ length-set buf i b

-- A copy to the place behind a window extends the window.
window-copy_to :
    (cap : ℕ) (buf : List ℕ) (i from n : ℕ) (bs : List ℕ)
    → length buf ≡ cap
    → (from + n) % cap ≡ i % cap
    → i + length bs ≤ cap
    → n + length bs ≤ cap
    → window cap 0 (copy_to buf i bs) from (n + length bs) ≡ window cap 0 buf from n ++ bs
unfolding copy_to
window-copy_to cap buf i from n [] size at fits room =
    ap (window cap 0 buf from) (add-zero n) ∙ sym (append-nil (window cap 0 buf from n))
window-copy_to cap buf i from n (b ∷ bs) size at fits room =
    let place : i ≡ (from + n) % cap = sym (at ∙ mod-eq_of_lt (omega arith)) in
    let next : (from + suc n) % cap ≡ suc i % cap =
      ap (λ (k : ℕ). k % cap) {y = (from + n) + 1} (omega arith)
      ∙ sym (mod-add-mod (from + n) cap 1)
      ∙ ap (λ (k : ℕ). k % cap) {y = suc i} (omega arith) in
    let here : window cap 0 (set buf i b) from (suc n) ≡ window cap 0 buf from n ++ b ∷ [] =
      ap (λ (j : ℕ). window cap 0 (set buf j b) from (suc n)) place
      ∙ window-set_end cap 0 buf from n b (omega arith) (omega arith) in
    ap (window cap 0 (copy_to (set buf i b) (suc i) bs) from) (omega arith)
    ∙ window-copy_to cap (set buf i b) (suc i) from (suc n) bs (length-set buf i b ∙ size) next
        (omega arith) (omega arith)
    ∙ ap (λ (l : List ℕ). l ++ bs) here
    ∙ append_assoc (window cap 0 buf from n) (b ∷ []) bs

-- The loop's result: the pointer has gone round by the number of bytes, and they stand behind the `n` that were there.
pub record Written (u u' : UartTx) (n : ℕ) (bs : List ℕ) : Type 0 where
  pub size : length u'.buffer ≡ u.buffer_size
  pub same_size : u'.buffer_size ≡ u.buffer_size
  pub same_read : u'.read ≡ u.read
  pub same_full : u'.buffer_full ≡ u.buffer_full
  pub write_in : u'.write < u.buffer_size
  pub at : u'.write ≡ (u.read + (n + length bs)) % u.buffer_size
  pub queued :
      window u.buffer_size 0 u'.buffer u.read (n + length bs)
      ≡ window u.buffer_size 0 u.buffer u.read n ++ bs

chunk-le :
    (u : UartTx) (n : ℕ)
    → u.write < u.buffer_size
    → (u.write + chunk u n ≤ u.buffer_size) × (chunk u n ≤ n)
chunk-le u n h = ground arith

chunk-ge : (u : UartTx) (n : ℕ) → u.write < u.buffer_size → 0 < n → 0 < chunk u n
chunk-ge u n h k = ground arith

write_chunk-Written :
    (u : UartTx) (n : ℕ) (bs : List ℕ)
    → length u.buffer ≡ u.buffer_size
    → u.write < u.buffer_size
    → (u.read + n) % u.buffer_size ≡ u.write
    → u.write + length bs ≤ u.buffer_size
    → n + length bs ≤ u.buffer_size
    → Written u (write_chunk u bs) n bs
unfolding write_chunk
write_chunk-Written u n bs size inside at fits room = record {
  size = length-copy_to u.buffer u.write bs ∙ size;
  same_size = refl;
  same_read = refl;
  same_full = refl;
  write_in = mod-lt (u.write + length bs) (omega arith);
  at =
      ap (λ (k : ℕ). (k + length bs) % u.buffer_size) (sym at)
      ∙ mod-add-mod (u.read + n) u.buffer_size (length bs)
      ∙ ap (λ (k : ℕ). k % u.buffer_size) (omega arith);
  queued =
      window-copy_to u.buffer_size u.buffer u.write u.read n bs size
        (at ∙ sym (mod-eq_of_lt inside)) fits room;
}

write_none :
    (u : UartTx) (n : ℕ)
    → length u.buffer ≡ u.buffer_size
    → u.write < u.buffer_size
    → (u.read + n) % u.buffer_size ≡ u.write
    → Written u u n []
write_none u n size inside at = record {
  size = size;
  same_size = refl;
  same_read = refl;
  same_full = refl;
  write_in = inside;
  at = sym at ∙ ap (λ (k : ℕ). (u.read + k) % u.buffer_size) (omega arith);
  queued = ap (window u.buffer_size 0 u.buffer u.read) (add-zero n) ∙ sym (append-nil _);
}

-- The loop ends with fuel for one round per byte, and queues the bytes.
pub write_loop-Written :
    (fuel : ℕ) (u : UartTx) (n : ℕ) (bs : List ℕ)
    → length bs ≤ fuel
    → length u.buffer ≡ u.buffer_size
    → u.write < u.buffer_size
    → (u.read + n) % u.buffer_size ≡ u.write
    → n + length bs ≤ u.buffer_size
    → (u' : UartTx) × (write_loop fuel u bs ≡ some u') × Written u u' n bs
unfolding write_loop
write_loop-Written zero u n [] enough size inside at room = (u, refl, write_none u n size inside at)
write_loop-Written zero u n (b ∷ bs) enough size inside at room = absurd (omega arith)
write_loop-Written (suc fuel) u n [] enough size inside at room =
    (u, refl, write_none u n size inside at)
write_loop-Written (suc fuel) u n (b ∷ bs) enough size inside at room =
    let all = b ∷ bs in
    let c = chunk u (length all) in
    let (fits, small) = chunk-le u (length all) inside in
    let some_bytes = chunk-ge u (length all) inside (omega arith) in
    let front : length (take c all) ≡ c = omega (arith, length-take c all) in
    let back : length (drop c all) ≡ length all - c = length-drop c all in
    let w = write_chunk-Written u n (take c all) size inside at (omega arith) (omega arith) in
    let next = write_chunk u (take c all) in
    let (u', returns, r) =
      write_loop-Written fuel next (n + length (take c all)) (drop c all) (omega arith)
        (w.size ∙ sym w.same_size) (subst (λ k. next.write < k) (sym w.same_size) w.write_in)
        (ap₂ (λ (a k : ℕ). (a + (n + length (take c all))) % k) w.same_read w.same_size ∙ sym w.at)
        (omega (arith, w.same_size)) in
    (
      u',
      returns,
      joined u next u' n (take c all) (drop c all) all (take-append-drop c all) (omega arith) w r,
    )
  where
    joined :
        (u v u' : UartTx) (n : ℕ) (xs ys all : List ℕ)
        → xs ++ ys ≡ all
        → length xs + length ys ≡ length all
        → Written u v n xs
        → Written v u' (n + length xs) ys
        → Written u u' n all
    joined u v u' n xs ys all whole sizes w r =
        let total : n + length xs + length ys ≡ n + length all = omega arith in
        record {
          size = r.size ∙ w.same_size;
          same_size = r.same_size ∙ w.same_size;
          same_read = r.same_read ∙ w.same_read;
          same_full = r.same_full ∙ w.same_full;
          write_in = subst (λ k. u'.write < k) w.same_size r.write_in;
          at =
              r.at
              ∙ ap₂ (λ (a k : ℕ). (a + (n + length xs + length ys)) % k) w.same_read w.same_size
              ∙ ap (λ (k : ℕ). (u.read + k) % u.buffer_size) total;
          queued =
              ap (window u.buffer_size 0 u'.buffer u.read) (sym total)
              ∙ ap₂ (λ (a k : ℕ). window k 0 u'.buffer a (n + length xs + length ys))
                  (sym w.same_read) (sym w.same_size)
              ∙ r.queued
              ∙ ap₂ (λ (a k : ℕ). window k 0 v.buffer a (n + length xs) ++ ys) w.same_read
                  w.same_size
              ∙ ap (λ (l : List ℕ). l ++ ys) w.queued
              ∙ append_assoc (window u.buffer_size 0 u.buffer u.read n) xs ys
              ∙ ap (λ (l : List ℕ). window u.buffer_size 0 u.buffer u.read n ++ l) whole;
        }
