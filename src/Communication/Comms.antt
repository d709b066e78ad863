-- ===== src/Communication/Comms.antt =====
-- src/LogicElements/include/Communication/comms.hpp and src/LogicElements/src/Communication/comms.cpp:
-- commands as text, the requests that they are parsed to, and responses in parts. Texts are lists of
-- bytes. `F` is the type of floats, and `stof` the standard library's conversion, `none` where it
-- throws; `true_value`, `false_value` and `default_duration` are 1.0f, 0.0f and 1.
pub mod Words
pub mod Numbers
pub mod Parts
pub mod Requests
use Prim.Native.String.{String}
use logic_elements.Base.{
  ℕ, zero, suc, ◌+◌, ◌*◌, ◌-◌, ◌%◌, ◌^◌, Bool, false, ◌&&◌, ◌||◌, List, [], ◌∷◌, ◌++◌, map, Option,
  none, some, ltb, leb, ◌==◌, if◌then◌else◌, length, take, drop, ◌>>=◌,
}
use logic_elements.Base.Int.{ℤ, pos, negsuc, pos_part, neg_part}
use logic_elements.Core.Port.{Name, name_eq}
use logic_elements.Core.Element.Types.{bytes}

-- `msg_type`
pub data MsgType : Type 0 where
  msg_echo msg_id msg_status msg_target msg_pulse msg_ser unknown : MsgType

-- `msg_category`
pub data MsgCategory : Type 0 where
  request response_partial response_complete : MsgCategory

-- `msg_type_map`
abbrev pub msg_type_map : List (String × MsgType)
msg_type_map =
    ("ECHO", msg_echo)
    ∷ ("ID", msg_id)
    ∷ ("STATUS", msg_status)
    ∷ ("STA", msg_status)
    ∷ ("TARGET", msg_target)
    ∷ ("TAR", msg_target)
    ∷ ("PULSE", msg_pulse)
    ∷ ("PUL", msg_pulse)
    ∷ ("SER", msg_ser)
    ∷ []

-- `toupper` and `isspace`, in the C locale.
abbrev pub upper_byte : ℕ → ℕ
upper_byte c = if leb 97 c && leb c 122 then c - 32 else c

abbrev pub is_space : ℕ → Bool
is_space c = c == 32 || (leb 9 c && leb c 13)

-- `to_upper`
abbrev pub to_upper : Name → Name
to_upper text = map upper_byte text

-- What the loop of `split` reads: `word` is the part of a word that is read already.
abbrev pub flush : Name → List Name → List Name
flush [] words = words
flush (c ∷ cs) words = (c ∷ cs) ∷ words

unfoldable pub split_words : Name → Name → List Name
split_words [] word = flush word []
split_words (c ∷ cs) word =
    if is_space c then flush word (split_words cs []) else split_words cs (word ++ c ∷ [])

-- `split`
unfoldable pub split : Name → List Name
split message = split_words message []

unfoldable pub find_msg_type : List (String × MsgType) → Name → MsgType
find_msg_type [] word = unknown
find_msg_type ((text, t) ∷ rest) word =
    if name_eq word (bytes text) then t else find_msg_type rest word

-- `parse_msg_type`
unfoldable pub parse_msg_type : Name → MsgType
parse_msg_type word = find_msg_type msg_type_map (to_upper word)

-- `std::stoi`: spaces, a sign, and decimal digits; `none` where it throws.
abbrev pub is_digit : ℕ → Bool
is_digit c = leb 48 c && leb c 57

unfoldable pub leading_number : ℕ → Name → ℕ
leading_number n [] = n
leading_number n (c ∷ cs) = if is_digit c then leading_number (n * 10 + (c - 48)) cs else n

abbrev pub starts_with_digit : Name → Bool
starts_with_digit [] = false
starts_with_digit (c ∷ cs) = is_digit c

unfoldable pub positive : Name → Option ℤ
positive digits =
    if starts_with_digit digits && ltb (leading_number 0 digits) (2 ^ 31)
    then some (pos (leading_number 0 digits))
    else none

unfoldable pub negative : Name → Option ℤ
negative digits =
    if starts_with_digit digits && leb (leading_number 0 digits) (2 ^ 31)
    then some (if leading_number 0 digits == 0 then pos 0 else negsuc (leading_number 0 digits - 1))
    else none

unfoldable pub stoi : Name → Option ℤ
stoi [] = none
stoi (c ∷ cs) =
    if is_space c
    then stoi cs
    else if c == 45
    then negative cs
    else if c == 43
    then positive cs
    else positive (c ∷ cs)

-- A cast of an `int` to an unsigned type of `m` values.
abbrev pub cast_unsigned : ℕ → ℤ → ℕ
cast_unsigned m z = (pos_part z + (m - neg_part z % m)) % m

-- MSG_REQ_ARG_MAX_LENGTH and MSG_RESP_MAX_LENGTH
abbrev pub msg_req_arg_max_length : ℕ
msg_req_arg_max_length = 16

abbrev pub msg_resp_max_length : ℕ
msg_resp_max_length = 128

-- What the constructors of requests keep of a text argument.
abbrev pub text_arg : Name → Name
text_arg text =
    take
      (if leb msg_req_arg_max_length (length text) then msg_req_arg_max_length - 1 else length text)
      text

-- The requests, by their classes.
pub data MsgReq (F : Type 0) : Type 0 where
  req : MsgType → MsgReq F
  req_echo : Name → MsgReq F
  req_target : Name → ℕ → ℕ → ℕ → MsgReq F
  req_pulse : Name → F → F → MsgReq F
  req_ser : ℕ → MsgReq F
  req_unknown : Name → Name → MsgReq F

module _ {F : Type 0} where
  abbrev pub error_only : String → MsgReq F
  error_only error = req_unknown (bytes error) []

  -- A `try` block around `stoi`, and what comes after it.
  abbrev pub with_int : Name → String → (ℤ → MsgReq F) → MsgReq F
  with_int text error next = elim (stoi text) [
    | none ↦ req_unknown (bytes error) text
    | some z ↦ next z
  ]

  -- The same for an argument that may be missing.
  abbrev pub with_optional_int : Option Name → ℕ → ℕ → String → (ℕ → MsgReq F) → MsgReq F
  with_optional_int none m default error next = next default
  with_optional_int (some text) m default error next =
      with_int text error (λ z. next (cast_unsigned m z))

  unfoldable pub parse_echo : List Name → MsgReq F
  parse_echo [] = error_only "No echo message provided"
  parse_echo (word ∷ []) = error_only "No echo message provided"
  parse_echo (word ∷ other ∷ more) = req_echo (text_arg word)

  unfoldable pub target_from : Name → Name → Option Name → Option Name → MsgReq F
  target_from name slot repetition delay = with_int slot "Invalid output slot argument" (λ s.
      with_optional_int repetition (2 ^ 8) 1 "Invalid repetition argument" (λ r.
        with_optional_int delay (2 ^ 16) 1000 "Invalid delay argument"
          (λ d. req_target (text_arg name) (cast_unsigned (2 ^ 8) s) r d)))

  unfoldable pub parse_target : List Name → MsgReq F
  parse_target [] = error_only "Not enough arguments provided"
  parse_target (name ∷ []) = error_only "Not enough arguments provided"
  parse_target (name ∷ slot ∷ []) = target_from name slot none none
  parse_target (name ∷ slot ∷ repetition ∷ []) = target_from name slot (some repetition) none
  parse_target (name ∷ slot ∷ repetition ∷ delay ∷ []) =
      target_from name slot (some repetition) (some delay)
  parse_target (name ∷ slot ∷ repetition ∷ delay ∷ extra ∷ more) =
      error_only "Too many arguments provided"

  unfoldable pub parse_ser : List Name → MsgReq F
  parse_ser [] = error_only "Invalid number of arguments provided"
  parse_ser (number ∷ []) =
      with_int number "Invalid number of SERS argument" (λ z. req_ser (cast_unsigned (2 ^ 16) z))
  parse_ser (number ∷ extra ∷ more) = error_only "Invalid number of arguments provided"

  module _ (stof : Name → Option F) (true_value false_value default_duration : F) where
    unfoldable pub parse_value : Name → Option F
    parse_value text =
        if name_eq text (bytes "true")
        then some true_value
        else if name_eq text (bytes "false")
        then some false_value
        else stof text

    unfoldable pub pulse_from : Name → Name → Option Name → MsgReq F
    pulse_from name value duration = elim (parse_value value) [
      | none ↦ req_unknown (bytes "Invalid value argument") value
      | some v ↦ elim duration [
        | none ↦ req_pulse (text_arg name) v default_duration
        | some text ↦ elim (stof text) [
          | none ↦ req_unknown (bytes "Invalid duration argument") text
          | some d ↦ req_pulse (text_arg name) v d
        ]
      ]
    ]

    unfoldable pub parse_pulse : List Name → MsgReq F
    parse_pulse [] = error_only "Not enough arguments provided"
    parse_pulse (name ∷ []) = error_only "Not enough arguments provided"
    parse_pulse (name ∷ value ∷ []) = pulse_from name value none
    parse_pulse (name ∷ value ∷ duration ∷ []) = pulse_from name value (some duration)
    parse_pulse (name ∷ value ∷ duration ∷ extra ∷ more) = error_only "Too many arguments provided"

    -- The `switch` of `parse_msg_req_command`.
    unfoldable pub parse_command : MsgType → Name → List Name → MsgReq F
    parse_command msg_echo command args = parse_echo args
    parse_command msg_id command args = req msg_id
    parse_command msg_status command args = req msg_status
    parse_command msg_target command args = parse_target args
    parse_command msg_pulse command args = parse_pulse args
    parse_command msg_ser command args = parse_ser args
    parse_command unknown command args = req_unknown (bytes "Invalid command") command

    abbrev pub parse_words : List Name → Option (MsgReq F)
    parse_words [] = none
    parse_words (command ∷ args) =
        some (parse_command (parse_msg_type (to_upper command)) (to_upper command) args)

    -- `parse_msg_req_command`; `none` is a null pointer.
    unfoldable pub parse_msg_req_command : Name → Option (MsgReq F)
    parse_msg_req_command line = parse_words (split line)

-- `msg_resp`; `text` is the first `length` bytes of its buffer, behind which there are zeros.
pub record MsgResp : Type 0 where
  pub msg_type : MsgType
  pub category : MsgCategory
  pub text : Name
  pub bad_response : Bool

-- The constructor.
unfoldable pub msg_resp : MsgType → Name → Bool → MsgResp
msg_resp t buffer bad =
    if ltb (length buffer) msg_resp_max_length
    then record { msg_type = t; category = response_complete; text = buffer; bad_response = bad }
    else record {
      msg_type = t;
      category = response_partial;
      text = take msg_resp_max_length buffer;
      bad_response = bad;
    }

-- The loop of `partialize_msg` over what is left of the buffer. `none`: more rounds than fuel.
unfoldable pub partialize_loop : ℕ → MsgType → Name → Bool → Option (List MsgResp)
partialize_loop zero t [] bad = some []
partialize_loop zero t (c ∷ cs) bad = none
partialize_loop (suc fuel) t [] bad = some []
partialize_loop (suc fuel) t (c ∷ cs) bad =
    let part = msg_resp t (c ∷ cs) bad in
    let rest = partialize_loop fuel t (drop (length part.text) (c ∷ cs)) bad in
    rest >>= λ parts. some (part ∷ parts)

-- `partialize_msg`, with fuel for a round per byte.
unfoldable pub partialize_msg : MsgType → Name → Bool → Option (List MsgResp)
partialize_msg t buffer bad = partialize_loop (length buffer) t buffer bad
