-- ===== src/Dyntest/Summary.antt =====
-- The lines that `eval_batch_result` prints for the carriers of a batch.
use org_muhkuh_tools_flasher.Common.{
  ℕ, zero, suc, Option, none, some, List, [], ◌∷◌, ◌++◌, ltb, if◌then◌else◌, ◌>>=◌,
}
use org_muhkuh_tools_flasher.Common.Words.{Word, codes, join_words}
use org_muhkuh_tools_flasher.Common.Paths.{slash}
use org_muhkuh_tools_flasher.Common.Decimals.{decimal}
use mathlib.Core.List.{reverse}
use org_muhkuh_tools_flasher.Files.{Place}
use org_muhkuh_tools_flasher.Batch.{ReturnValue, unset, exit_code, signal, Entry}
use org_muhkuh_tools_flasher.Carriers.{Carrier}

-- The path of a place, as a text.
unfoldable pub text_of : Place → Word
text_of place = join_words slash (reverse place)

-- `'Err: %03d'`
three_digits : ℕ → Word
three_digits n = (if ltb n 10 then codes "00" else if ltb n 100 then codes "0" else []) ++ decimal n

two_places : ℕ → Word
two_places n = (if ltb n 10 then codes "0" else []) ++ decimal n

error_text : ReturnValue → Word
unfolding three_digits two_places
error_text unset = codes "  OK    "
error_text (exit_code zero) = codes "  OK    "
error_text (exit_code (suc n)) = codes "Err: " ++ three_digits (suc n)
error_text (signal n) = codes "Err: -" ++ two_places n

code_text : ReturnValue → Word
code_text unset = codes "None"
code_text (exit_code n) = decimal n
code_text (signal n) = b'-' ∷ decimal n

id_text : Option ℕ → Word
id_text none = codes "None"
id_text (some n) = decimal n

-- The line of a carrier; a time that is not set raises.
unfoldable pub line_of : {T : Type 0} → (T → Word) → Carrier T → Option Word
unfolding error_text code_text id_text
line_of float_text carrier = do
  time ← carrier.time_execute
  some (
      codes "["
      ++ id_text carrier.id
      ++ codes "][R:"
      ++ code_text carrier.ret_val
      ++ codes "]["
      ++ error_text carrier.ret_val
      ++ codes "](t:"
      ++ float_text time
      ++ codes "): "
      ++ carrier.cmd)

unfoldable pub entries_of : {T : Type 0} → (T → Word) → List (Carrier T) → List Entry
unfolding line_of
entries_of float_text [] = []
entries_of float_text (carrier ∷ carriers) =
    record { ret_val = carrier.ret_val; line = line_of float_text carrier }
    ∷ entries_of float_text carriers
