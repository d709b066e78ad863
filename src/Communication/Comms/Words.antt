-- ===== src/Communication/Comms/Words.antt =====
-- `split`: the words of a line.
use mathlib.Core.List.{append_assoc, append-nil}
use logic_elements.Base.{
  ℕ, ◌≡◌, refl, sym, ap, ap₂, ◌∙◌, ◌≢◌, false, List, [], ◌∷◌, ◌++◌, All, if◌then◌else◌, arith,
  Bool-cases, inl, inr,
}
use logic_elements.Core.Port.{Name}
use logic_elements.Communication.Comms.{is_space, flush, split_words, split, upper_byte, to_upper}

abbrev pub NoSpace : ℕ → Type 0
NoSpace c = is_space c ≡ false

-- A word: not empty, and with no space in it.
abbrev pub IsWord : Name → Type 0
IsWord w = (w ≢ []) × All NoSpace w

-- Words with a space between them.
abbrev pub join : List Name → Name
join [] = []
join (w ∷ []) = w
join (w ∷ v ∷ ws) = w ++ 32 ∷ join (v ∷ ws)

abbrev pub concat : List Name → Name
concat [] = []
concat (w ∷ ws) = w ++ concat ws

abbrev pub without_spaces : Name → Name
without_spaces [] = []
without_spaces (c ∷ cs) = if is_space c then without_spaces cs else c ∷ without_spaces cs

-- The bytes of a word are added to the word that is being read.
split_words-append :
    (w rest word : Name)
    → All NoSpace w
    → split_words (w ++ rest) word ≡ split_words rest (word ++ w)
unfolding split_words
split_words-append [] rest word h = ap (split_words rest) (sym (append-nil word))
split_words-append (c ∷ w) rest word (h, hs) = rw h (
    split_words-append w rest (word ++ c ∷ []) hs
    ∙ ap (split_words rest) (append_assoc word (c ∷ []) w))

flush_word : (w : Name) (ws : List Name) → w ≢ [] → flush w ws ≡ w ∷ ws
flush_word [] ws h = absurd (h refl)
flush_word (c ∷ cs) ws h = refl

-- Words that are not empty and have no space in them, put together with a space between, are split
-- into the same words.
pub split-join : (ws : List Name) → All IsWord ws → split (join ws) ≡ ws
unfolding split split_words
split-join [] h = refl
split-join (w ∷ []) (h, hs) =
    ap (λ (l : Name). split_words l []) (sym (append-nil w))
    ∙ split_words-append w [] [] h.1
    ∙ flush_word w [] h.0
split-join (w ∷ v ∷ ws) (h, hs) =
    split_words-append w (32 ∷ join (v ∷ ws)) [] h.1
    ∙ flush_word w (split_words (join (v ∷ ws)) []) h.0
    ∙ ap (λ (l : List Name). w ∷ l) (split-join (v ∷ ws) hs)

All-snoc : (w : Name) (c : ℕ) → All NoSpace w → NoSpace c → All NoSpace (w ++ c ∷ [])
All-snoc [] c h k = (k, tt)
All-snoc (b ∷ w) c (h, hs) k = (h, All-snoc w c hs k)

flush-IsWord : (w : Name) (ws : List Name) → All NoSpace w → All IsWord ws → All IsWord (flush w ws)
flush-IsWord [] ws h k = k
flush-IsWord (c ∷ w) ws h k = (((λ e. cc), h), k)

concat-flush : (w : Name) (ws : List Name) → concat (flush w ws) ≡ w ++ concat ws
concat-flush [] ws = refl
concat-flush (c ∷ w) ws = refl

split_words-IsWord : (cs word : Name) → All NoSpace word → All IsWord (split_words cs word)
unfolding split_words
split_words-IsWord [] word h = flush-IsWord word [] h tt
split_words-IsWord (c ∷ cs) word h = elim (Bool-cases (is_space c)) [
  | inl e ↦ rw e (flush-IsWord word (split_words cs []) h (split_words-IsWord cs [] tt))
  | inr e ↦ rw e (split_words-IsWord cs (word ++ c ∷ []) (All-snoc word c h e))
]

concat-split_words : (cs word : Name) → concat (split_words cs word) ≡ word ++ without_spaces cs
unfolding split_words
concat-split_words [] word = concat-flush word []
concat-split_words (c ∷ cs) word = elim (Bool-cases (is_space c)) [
  | inl e ↦ rw e (
      concat-flush word (split_words cs [])
      ∙ ap (λ (l : Name). word ++ l) (concat-split_words cs []))
  | inr e ↦
      rw e (concat-split_words cs (word ++ c ∷ []) ∙ append_assoc word (c ∷ []) (without_spaces cs))
]

-- Splitting any message gives words that are not empty and have no space in them, and together they
-- are the message without its spaces.
pub split-IsWord :
    (message : Name)
    → All IsWord (split message) × (concat (split message) ≡ without_spaces message)
unfolding split
split-IsWord message = (split_words-IsWord message [] tt, concat-split_words message [])

upper_byte_twice : (c : ℕ) → upper_byte (upper_byte c) ≡ upper_byte c
upper_byte_twice c = ground arith

pub to_upper_twice : (w : Name) → to_upper (to_upper w) ≡ to_upper w
to_upper_twice [] = refl
to_upper_twice (c ∷ w) = ap₂ ◌∷◌ (upper_byte_twice c) (to_upper_twice w)

upper_byte-NoSpace : (c : ℕ) → NoSpace c → NoSpace (upper_byte c)
upper_byte-NoSpace c h = ground arith

pub to_upper-IsWord : (w : Name) → IsWord w → IsWord (to_upper w)
to_upper-IsWord [] h = h
to_upper-IsWord (c ∷ w) (ne, (h, hs)) = ((λ e. cc), (upper_byte-NoSpace c h, rest w hs))
  where
    rest : (w : Name) → All NoSpace w → All NoSpace (to_upper w)
    rest [] hs = tt
    rest (c ∷ w) (h, hs) = (upper_byte-NoSpace c h, rest w hs)
