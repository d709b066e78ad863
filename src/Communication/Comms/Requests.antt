-- ===== src/Communication/Comms/Requests.antt =====
-- `parse_msg_req_command`: commands and their requests.
use Prim.Native.String.{String}
use native.Mathlib.Nat.{mod-eq_of_lt, mod-eq-sub-mod}
use logic_elements.Base.{
  ℕ, ◌+◌, ◌-◌, ◌%◌, ◌^◌, ◌≤◌, ◌<◌, ◌≡◌, refl, sym, ap, ◌∙◌, List, [], ◌∷◌, Option, some, All, arith,
}
use logic_elements.Base.Int.{ℤ, pos}
use logic_elements.Core.Port.{Name}
use logic_elements.Core.Element.Types.{bytes}
use logic_elements.Communication.Comms.{
  MsgType, msg_echo, msg_target, msg_ser, MsgReq, req_target, req_ser, req_unknown, text_arg,
  to_upper, stoi, cast_unsigned, with_int, with_optional_int, msg_type_map, find_msg_type,
  parse_msg_type, parse_echo, target_from, parse_target, parse_ser, parse_words, parse_command,
  parse_msg_req_command,
}
use logic_elements.Communication.Comms.Words.{
  IsWord, join, split-join, to_upper_twice, to_upper-IsWord,
}
use logic_elements.Communication.Comms.Numbers.{decimal-IsWord, stoi-decimal}
use logic_elements.Base.Decimal.{decimal}

cast_pos : (m n : ℕ) → n < m → cast_unsigned m (pos n) ≡ n
cast_pos m n h =
    ap (λ (k : ℕ). (n + (m - k)) % m) (mod-eq_of_lt {n = 0} {m = m} (omega arith))
    ∙ ap (λ (k : ℕ). k % m) {y = n + m} (omega arith)
    ∙ mod-eq-sub-mod {n = n + m} {m = m} (omega arith)
    ∙ ap (λ (k : ℕ). k % m) {y = n} (omega arith)
    ∙ mod-eq_of_lt h

module _ {F : Type 0} where
  with_int-some :
      (text : Name) (error : String) (next : ℤ → MsgReq F) (z : ℤ)
      → stoi text ≡ some z
      → with_int text error next ≡ next z
  with_int-some text error next z e = rw (e, with_int) refl

  -- An argument that is a decimal number.
  with_optional_int-decimal :
      (m n default : ℕ) (error : String) (next : ℕ → MsgReq F)
      → m ≤ 2 ^ 31
      → n < m
      → with_optional_int (some (decimal n)) m default error next ≡ next n
  with_optional_int-decimal m n default error next fits h =
      with_int-some (decimal n) error (λ z. next (cast_unsigned m z)) (pos n)
        (stoi-decimal n (omega arith))
      ∙ ap next (cast_pos m n h)

module _ {F : Type 0} (stof : Name → Option F) (true_value false_value default_duration : F) where
  abbrev Parses : Name → MsgReq F → Type 0
  Parses line r = parse_msg_req_command stof true_value false_value default_duration line ≡ some r

  -- A command is parsed as its words are.
  parse_join :
      (command : Name) (args : List Name) (t : MsgType)
      → IsWord command
      → All IsWord args
      → parse_msg_type (to_upper command) ≡ t
      → Parses
          (join (command ∷ args))
          (parse_command stof true_value false_value default_duration t (to_upper command) args)
  unfolding parse_msg_req_command
  parse_join command args t w ws e =
      ap (parse_words stof true_value false_value default_duration)
        (split-join (command ∷ args) (w, ws))
      ∙ ap
          (λ (u : MsgType).
            some (
              parse_command stof true_value false_value default_duration u (to_upper command) args))
          e

  pub parse_target_command :
      (command name : Name) (slot repetition delay : ℕ)
      → IsWord command
      → parse_msg_type command ≡ msg_target
      → IsWord name
      → slot < 2 ^ 8
      → repetition < 2 ^ 8
      → delay < 2 ^ 16
      → parse_msg_req_command stof true_value false_value default_duration
          (join (command ∷ name ∷ decimal slot ∷ decimal repetition ∷ decimal delay ∷ []))
        ≡ some (req_target (text_arg name) slot repetition delay)
  unfolding parse_command parse_target target_from parse_msg_type
  parse_target_command command name slot repetition delay w t n hs hr hd =
      let done : MsgReq F = req_target (text_arg name) slot repetition delay in
      let at : ℕ → ℕ → ℕ → MsgReq F = λ s r d. req_target (text_arg name) s r d in
      let after_repetition : ℤ → ℕ → MsgReq F = λ s r.
        with_optional_int (some (decimal delay)) (2 ^ 16) 1000 "Invalid delay argument"
          (at (cast_unsigned (2 ^ 8) s) r) in
      let after_slot : ℤ → MsgReq F = λ s.
        with_optional_int (some (decimal repetition)) (2 ^ 8) 1 "Invalid repetition argument"
          (after_repetition s) in
      parse_join command (name ∷ decimal slot ∷ decimal repetition ∷ decimal delay ∷ []) msg_target
        w (n, (decimal-IsWord slot, (decimal-IsWord repetition, (decimal-IsWord delay, tt))))
        (ap (find_msg_type msg_type_map) (to_upper_twice command) ∙ t)
      ∙ ap some (
          with_int-some (decimal slot) "Invalid output slot argument" after_slot (pos slot)
            (stoi-decimal slot (omega arith))
          ∙ with_optional_int-decimal (2 ^ 8) repetition 1 "Invalid repetition argument"
              (after_repetition (pos slot)) (omega arith) hr
          ∙ with_optional_int-decimal (2 ^ 16) delay 1000 "Invalid delay argument"
              (at (cast_unsigned (2 ^ 8) (pos slot)) repetition) (omega arith) hd
          ∙ ap (λ (s : ℕ). at s repetition delay) (cast_pos (2 ^ 8) slot hs))

  pub parse_ser_command :
      (command : Name) (n : ℕ)
      → IsWord command
      → parse_msg_type command ≡ msg_ser
      → n < 2 ^ 16
      → parse_msg_req_command stof true_value false_value default_duration
          (join (command ∷ decimal n ∷ []))
        ≡ some (req_ser n)
  unfolding parse_command parse_ser parse_msg_type
  parse_ser_command command n w t h =
      parse_join command (decimal n ∷ []) msg_ser w (decimal-IsWord n, tt)
        (ap (find_msg_type msg_type_map) (to_upper_twice command) ∙ t)
      ∙ ap some (
          with_int-some (decimal n) "Invalid number of SERS argument"
            (λ z. req_ser (cast_unsigned (2 ^ 16) z)) (pos n) (stoi-decimal n (omega arith))
          ∙ ap req_ser (cast_pos (2 ^ 16) n h))

  -- A line of a word that is parsed as the echo command and one further word is answered with the
  -- error that no echo message is provided.
  pub parse_echo_one :
      (command word : Name)
      → IsWord command
      → parse_msg_type command ≡ msg_echo
      → IsWord word
      → parse_msg_req_command stof true_value false_value default_duration
          (join (command ∷ word ∷ []))
        ≡ some (req_unknown (bytes "No echo message provided") [])
  unfolding parse_command parse_echo parse_msg_type
  parse_echo_one command word w t n =
      parse_join command (word ∷ []) msg_echo w (n, tt)
        (ap (find_msg_type msg_type_map) (to_upper_twice command) ∙ t)

  pub parse_upper :
      (command : Name) (args : List Name)
      → IsWord command
      → All IsWord args
      → parse_msg_req_command stof true_value false_value default_duration
          (join (to_upper command ∷ args))
        ≡ parse_msg_req_command stof true_value false_value default_duration (join (command ∷ args))
  unfolding parse_msg_type
  parse_upper command args w ws =
      parse_join (to_upper command) args (parse_msg_type (to_upper (to_upper command)))
        (to_upper-IsWord command w) ws refl
      ∙ ap
          (λ (u : Name).
            some (
              parse_command stof true_value false_value default_duration (parse_msg_type u) u args))
          (to_upper_twice command)
      ∙ sym (parse_join command args (parse_msg_type (to_upper command)) w ws refl)
