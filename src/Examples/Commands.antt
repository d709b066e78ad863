-- ===== src/Examples/Commands.antt =====
-- A line of a command, and a response in parts.
use logic_elements.Base.{ℕ, ◌≡◌, refl, false, [], ◌∷◌, Option, none, some, arith, replicate}
use logic_elements.Core.Port.{Name}
use logic_elements.Core.Element.Types.{bytes}
use logic_elements.Communication.Comms.{
  msg_echo, msg_target, msg_status, req_target, text_arg, parse_msg_type, find_msg_type,
  parse_msg_req_command, partialize_msg,
}
use logic_elements.Communication.Comms.Words.{IsWord, join}
use logic_elements.Base.Decimal.{decimal}
use logic_elements.Communication.Comms.Parts.{Partialized, partialize_msg-Partialized}
use logic_elements.Communication.Comms.Requests.{parse_target_command}

target-IsWord : IsWord (bytes "tar")
target-IsWord = ((λ e. cc), (refl, (refl, (refl, tt))))

echo-IsWord : IsWord (bytes "Echo")
echo-IsWord = ((λ e. cc), (refl, (refl, (refl, (refl, tt)))))

name-IsWord : IsWord (bytes "B52")
name-IsWord = ((λ e. cc), (refl, (refl, (refl, tt))))

tar-msg_target : parse_msg_type (bytes "tar") ≡ msg_target
unfolding parse_msg_type find_msg_type
tar-msg_target = refl

echo-msg_echo : parse_msg_type (bytes "Echo") ≡ msg_echo
unfolding parse_msg_type find_msg_type
echo-msg_echo = refl

-- Floats stand for nothing here: `stof` never succeeds.
abbrev no_floats : Name → Option ℕ
no_floats text = none

parse_target_command_example :
    parse_msg_req_command no_floats 1 0 1
      (join (bytes "tar" ∷ bytes "B52" ∷ decimal 2 ∷ decimal 10 ∷ decimal 500 ∷ []))
    ≡ some (req_target (text_arg (bytes "B52")) 2 10 500)
parse_target_command_example =
    parse_target_command no_floats 1 0 1 (bytes "tar") (bytes "B52") 2 10 500 target-IsWord
      tar-msg_target name-IsWord (omega arith) (omega arith) (omega arith)

abbrev response : Name
response = replicate 200 65

partialize_msg-Partialized_example : Partialized response (partialize_msg msg_status response false)
partialize_msg-Partialized_example = partialize_msg-Partialized msg_status response false
