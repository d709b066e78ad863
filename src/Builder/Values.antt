-- ===== src/Builder/Values.antt =====
-- What src/LogicElements/src/Builder/le_Builder.cpp reports, its loops, and what it asks of JSON values.
use Prim.Native.String.{String}
use logic_elements.Base.{
  ℕ, ◌-◌, ◌%◌, ◌^◌, Bool, true, false, List, [], ◌∷◌, ◌++◌, Option, none, some, ◌==◌, if◌then◌else◌,
  length, take,
}
use logic_elements.Base.Int.{ℤ}
use logic_elements.Core.Port.{Name}
use logic_elements.Core.Element.Types.{ElementType, bytes, invalid}
use logic_elements.Digital.{Argument}

-- `MajorError` and `MinorError`.
pub data MajorError : Type 0 where
  no_major inv_file inv_json_file inv_engine_name inv_engine_components inv_engine_nets inv_ser :
      MajorError

pub data MinorError : Type 0 where
  no_minor inv_components_output inv_engine_nets_minor inv_ser_point : MinorError

abbrev pub major_error_to_string : MajorError → String
major_error_to_string no_major = "No error"
major_error_to_string inv_file = "Invalid file path or file cannot be opened"
major_error_to_string inv_json_file = "Invalid JSON format"
major_error_to_string inv_engine_name = "Missing or invalid engine name in JSON"
major_error_to_string inv_engine_components = "Invalid or missing engine components in JSON"
major_error_to_string inv_engine_nets = "Invalid or missing engine nets in JSON"
major_error_to_string inv_ser = "Invalid or missing SER configuration"

abbrev pub minor_error_to_string : MinorError → String
minor_error_to_string no_minor = "No error"
minor_error_to_string inv_components_output = "Invalid component output in JSON"
minor_error_to_string inv_engine_nets_minor = "Invalid engine nets in JSON"
minor_error_to_string inv_ser_point = "Invalid ser point"

-- The static members of `Builder`, with the texts in its two buffers.
pub record Errors : Type 0 where
  pub major : MajorError
  pub minor : MinorError
  pub message : Name
  pub erroneous_json : Name

-- `ClearErrors`
abbrev pub no_errors : Errors
no_errors = record { major = no_major; minor = no_minor; message = []; erroneous_json = [] }

abbrev pub erroneous : Name → Name
erroneous [] = []
erroneous (c ∷ text) = bytes "Erroneous JSON: " ++ take 500 (c ∷ text)

-- `SetError`, after `ClearErrors`.
abbrev pub set_error : MajorError → MinorError → Name → Errors
set_error major minor text = record {
  major = major;
  minor = minor;
  message =
      bytes "Major Error: "
      ++ (bytes (major_error_to_string major)
          ++ (bytes ", Minor Error: " ++ bytes (minor_error_to_string minor)));
  erroneous_json = erroneous text;
}

-- `GetErrorString`, for a buffer of some length: what it holds up to its zero byte, and the result.
unfoldable pub get_error_string : Errors → ℕ → Name × ℕ
get_error_string e length' =
    if length' == 0 then ([], 0) else (take (length' - 1) e.message, length e.message % 2 ^ 16)

-- What a function that returns false on an error has made, or its error.
pub data Result (A : Type 0) : Type 0 where
  ok : A → Result A
  rejected : Errors → Result A

-- What the code asks of JSON values: `parse`, a field of an object, the value of a text, an array, a
-- number or a truth value if it is one, what a loop over the value meets, `dump`, and null.
pub record JsonOps (J F : Type 0) : Type 0 where
  pub parse : Name → Option J
  pub field : J → Name → Option J
  pub text_of : J → Option Name
  pub array_of : J → Option (List J)
  pub is_object : J → Bool
  pub items : J → List J
  pub integer_of : J → Option ℤ
  pub float_of : J → Option F
  pub bool_of : J → Option Bool
  pub dump : J → Name
  pub null : J

-- The union of an argument with one of its members written, all its other bytes zero.
pub record ArgumentOps (F : Type 0) : Type 0 where
  pub with_u : ℕ → Argument F
  pub with_f : F → Argument F
  pub with_b : Bool → Argument F
  pub with_s : Name → Argument F

-- LE_ELEMENT_ARGUMENT_LENGTH and DEFAULT_SER_NAME
abbrev pub element_argument_length : ℕ
element_argument_length = 64

abbrev pub default_ser_name : Name
default_ser_name = bytes "__SER__"

abbrev pub is_invalid : ElementType → Bool
is_invalid invalid = true
is_invalid _ = false

-- What follows a call that returned true.
unfoldable pub and_then :
    {A B : Type 0} → Option (Result A) → (A → Option (Result B)) → Option (Result B)
and_then none f = none
and_then (some (rejected e)) f = some (rejected e)
and_then (some (ok a)) f = f a

-- A loop that returns false at the first error. `none`: undefined behaviour, or no fuel.
unfoldable pub each : {A S : Type 0} → (S → A → Option (Result S)) → S → List A → Option (Result S)
each f s [] = some (ok s)
each f s (a ∷ rest) = and_then (f s a) (λ s'. each f s' rest)
