-- ===== src/Base/Ring.antt =====
-- Arrays used as rings: the items that stand from a position on, going round at the end.
use native.Mathlib.Nat.{
  mod-add-mod, mod-lt, mod-eq_of_lt, mod-eq-sub-mod, suc-mod, add-zero, zero-add, add-suc, suc-add,
  le_refl,
}
use native.Mathlib.Decide.{dec_lt}
use mathlib.Core.List.{List, [], ◌∷◌, ◌++◌}
use mathlib.Core.Path.{◌≡◌, refl, sym, ap, ap₂, ◌∙◌}
use mathlib.Core.Logic.{◌≢◌}
use Prim.Native.Nat.{ℕ, zero, suc, ◌+◌, ◌-◌, ◌%◌, ◌≤◌, ◌<◌}
use native.Mathlib.Omega.{arith}
use logic_elements.Base.Lists.{
  replicate, get_or-replicate, length, get_or, set, take, drop, get_or-set_self, get_or-set_ne,
}

-- Positions less than once round apart have different places.
mod_ne : (cap a b : ℕ) → a < b → b < a + cap → b % cap ≢ a % cap
mod_ne cap a b h k e = elim (dec_lt (a % cap + (b - a)) cap) [
  | yes p ↦ omega (arith, whole, mod-eq_of_lt p)
  | no p ↦ omega (
    arith,
    whole,
    small,
    mod-eq-sub-mod {n = a % cap + (b - a)} {m = cap} (omega arith),
    mod-eq_of_lt {n = a % cap + (b - a) - cap} {m = cap} (omega (arith, small)),
  )
]
  where
    whole : b % cap ≡ (a % cap + (b - a)) % cap
    whole = ap (λ (n : ℕ). n % cap) (omega arith) ∙ sym (mod-add-mod a cap (b - a))

    small : a % cap < cap
    small = mod-lt a (omega arith)

module _ {ℓ} {A : Type ℓ} (cap : ℕ) (d : A) where
  -- The `n` items from position `from` on; positions count round and round.
  unfoldable pub window : List A → ℕ → ℕ → List A
  window buf from zero = []
  window buf from (suc n) = get_or buf (from % cap) d ∷ window buf (suc from) n

  pub length-window : (buf : List A) (from n : ℕ) → length (window buf from n) ≡ n
  unfolding window
  length-window buf from zero = refl
  length-window buf from (suc n) = ap suc (length-window buf (suc from) n)

  pub window-add :
      (buf : List A) (from a b : ℕ)
      → window buf from (a + b) ≡ window buf from a ++ window buf (from + a) b
  unfolding window
  window-add buf from zero b = rw (zero-add b, add-zero from)
  window-add buf from (suc a) b =
      rw (suc-add a b, add-suc from a, ← suc-add from a)
        (ap (λ (l : List A). get_or buf (from % cap) d ∷ l) (window-add buf (suc from) a b))

  mod-suc_cong : (a b : ℕ) → a % cap ≡ b % cap → suc a % cap ≡ suc b % cap
  mod-suc_cong a b e = suc-mod a cap ∙ ap (λ (i : ℕ). suc i % cap) e ∙ sym (suc-mod b cap)

  -- Only the position modulo the size matters.
  pub window_cong :
      (buf : List A) (from from' n : ℕ)
      → from % cap ≡ from' % cap
      → window buf from n ≡ window buf from' n
  unfolding window
  window_cong buf from from' zero e = refl
  window_cong buf from from' (suc n) e =
      ap₂ (λ (i : ℕ) (l : List A). get_or buf i d ∷ l) e
        (window_cong buf (suc from) (suc from') n (mod-suc_cong from from' e))

  -- A write at a position past the window, and less than once round, leaves it.
  pub window-set_outside :
      (buf : List A) (from n j : ℕ) (x : A)
      → from + n ≤ j
      → j < from + cap
      → window (set buf (j % cap) x) from n ≡ window buf from n
  unfolding window
  window-set_outside buf from zero j x h k = refl
  window-set_outside buf from (suc n) j x h k =
      ap₂ ◌∷◌ (get_or-set_ne buf x d (mod_ne cap from j (omega arith) k))
        (window-set_outside buf (suc from) n j x (omega arith) (omega arith))

  pub window_snoc :
      (buf : List A) (from n : ℕ)
      → window buf from (suc n) ≡ window buf from n ++ get_or buf ((from + n) % cap) d ∷ []
  unfolding window
  window_snoc buf from zero = rw (add-zero from)
  window_snoc buf from (suc n) =
      ap (λ (l : List A). get_or buf (from % cap) d ∷ l)
        (rw (add-suc from n, ← suc-add from n) (window_snoc buf (suc from) n))

  -- Without its first item a window starts one position on.
  pub drop-window :
      (buf : List A) (k from n : ℕ)
      → k ≤ n
      → drop k (window buf from n) ≡ window buf (from + k) (n - k)
  unfolding window
  drop-window buf zero from n h = rw (add-zero from) (ap (window buf from) (omega arith))
  drop-window buf (suc k) from zero h = absurd (omega arith)
  drop-window buf (suc k) from (suc n) h =
      drop-window buf k (suc from) n (omega arith) ∙ ap₂ (window buf) (omega arith) (omega arith)

  pub take-window :
      (buf : List A) (k from n : ℕ) → k ≤ n → take k (window buf from n) ≡ window buf from k
  unfolding window
  take-window buf zero from n h = refl
  take-window buf (suc k) from zero h = absurd (omega arith)
  take-window buf (suc k) from (suc n) h =
      ap (λ (l : List A). get_or buf (from % cap) d ∷ l)
        (take-window buf k (suc from) n (omega arith))

  -- A write at the position just past a window that is not the whole ring extends it.
  pub window-set_end :
      (buf : List A) (from n : ℕ) (x : A)
      → cap ≤ length buf
      → n < cap
      → window (set buf ((from + n) % cap) x) from (suc n) ≡ window buf from n ++ x ∷ []
  window-set_end buf from n x h k =
      window_snoc (set buf ((from + n) % cap) x) from n
      ∙ ap₂ (λ (l : List A) (y : A). l ++ y ∷ [])
          (window-set_outside buf from n (from + n) x (le_refl _) (omega arith))
          (get_or-set_self buf ((from + n) % cap) x d
            (omega (arith, mod-lt (from + n) {m = cap} (omega arith))))

  -- A window that starts at the place of a write.
  pub window_front :
      (buf : List A) (w k : ℕ) (v : A)
      → length buf ≡ cap
      → w < cap
      → k < cap
      → window (set buf w v) w (suc k) ≡ v ∷ window buf (suc w) k
  unfolding window
  window_front buf w k v size inside h =
      ap₂ ◌∷◌
        (ap (λ (i : ℕ). get_or (set buf w v) i d) (mod-eq_of_lt inside)
          ∙ get_or-set_self buf w v d (omega arith))
        (ap (λ (i : ℕ). window (set buf i v) (suc w) k) (sym (round w inside))
          ∙ window-set_outside buf (suc w) k (w + cap) v (omega arith) (omega arith))
    where
      round : (w : ℕ) → w < cap → (w + cap) % cap ≡ w
      round w inside =
          mod-eq-sub-mod {n = w + cap} {m = cap} (omega arith)
          ∙ ap (λ (i : ℕ). i % cap) {y = w} (omega arith)
          ∙ mod-eq_of_lt inside

  pub suc_back : (w : ℕ) → w < cap → suc ((w + cap - 1) % cap) % cap ≡ w % cap
  suc_back w h = elim (dec_lt w 1) [
    | yes p ↦
        let back : (w + cap - 1) % cap ≡ w + cap - 1 = mod-eq_of_lt (omega arith) in
        ap (λ (i : ℕ). suc i % cap) back
        ∙ ap (λ (k : ℕ). k % cap) {y = w + cap} (omega arith)
        ∙ mod-eq-sub-mod {n = w + cap} {m = cap} (omega arith)
        ∙ ap (λ (k : ℕ). k % cap) {y = w} (omega arith)
    | no p ↦
        let back : (w + cap - 1) % cap ≡ w + cap - 1 - cap =
          mod-eq-sub-mod {n = w + cap - 1} {m = cap} (omega arith) ∙ mod-eq_of_lt (omega arith) in
        ap (λ (i : ℕ). suc i % cap) back ∙ ap (λ (k : ℕ). k % cap) {y = w} (omega arith)
  ]

  -- A write in front of the whole ring.
  pub window_whole :
      (buf : List A) (w : ℕ) (v : A)
      → length buf ≡ cap
      → w < cap
      → window (set buf w v) w cap ≡ v ∷ take (cap - 1) (window buf (suc w) cap)
  window_whole buf w v size h =
      ap (window (set buf w v) w) {y = suc (cap - 1)} (omega arith)
      ∙ window_front buf w (cap - 1) v size h (omega arith)
      ∙ ap (λ (l : List A). v ∷ l) (sym (take-window buf (cap - 1) (suc w) cap (omega arith)))

  -- The same, from the write index that has gone down.
  pub window_push :
      (buf : List A) (w : ℕ) (v : A)
      → length buf ≡ cap
      → w < cap
      → window (set buf w v) (suc ((w + cap - 1) % cap)) cap
        ≡ v ∷ take (cap - 1) (window buf (suc w) cap)
  window_push buf w v size h =
      window_cong (set buf w v) (suc ((w + cap - 1) % cap)) w cap (suc_back w h)
      ∙ window_whole buf w v size h

  -- An item of a window.
  pub get_or-window :
      (buf : List A) (from n k : ℕ)
      → k < n
      → get_or (window buf from n) k d ≡ get_or buf ((from + k) % cap) d
  unfolding window
  get_or-window buf from zero k h = absurd (omega arith)
  get_or-window buf from (suc n) zero h = rw (add-zero from) refl
  get_or-window buf from (suc n) (suc k) h =
      get_or-window buf (suc from) n k (omega arith)
      ∙ ap (λ (i : ℕ). get_or buf (i % cap) d) {y = from + suc k} (omega arith)

pub window-replicate {ℓ} :
    {A : Type ℓ} (cap : ℕ) (d : A) (k from m : ℕ)
    → window cap d (replicate k d) from m ≡ replicate m d
unfolding window
window-replicate cap d k from zero = refl
window-replicate cap d k from (suc m) =
    ap₂ ◌∷◌ (get_or-replicate k (from % cap) d) (window-replicate cap d k (suc from) m)
