-- ===== src/Dyntest/Commands.antt =====
-- The commands of a test, from the entries of the command structure.
use org_muhkuh_tools_flasher.Common.{Option, none, some, List, [], ◌∷◌, ◌++◌, if◌then◌else◌, ◌>>=◌}
use org_muhkuh_tools_flasher.Common.Words.{Word, codes, eq_word}
use org_muhkuh_tools_flasher.Common.Paths.{join}

-- An entry of the command structure: its programs, by their keys in the order of the dictionary, and the
-- parameters.
pub record Command : Type 0 where
  pub programs : List (Word × Word)
  pub parameters : List Word

-- `dict["bin_path"]`
unfoldable pub value_at : Word → List (Word × Word) → Option Word
value_at key [] = none
value_at key ((k, v) ∷ rest) = if eq_word k key then some v else value_at key rest

-- The first parameter with the folder of the Lua files in front; without one the code raises.
unfoldable pub in_folder : Word → List Word → Option (List Word)
unfolding join
in_folder path [] = none
in_folder path (p ∷ ps) = some (join path p ∷ ps)

-- The loop over the programs, with the command so far and the parameters, which the flasher changes. A key
-- that is not known is only logged.
unfoldable pub select_program :
    Word
    → Word
    → List (Word × Word)
    → List (Word × Word)
    → Option Word
    → List Word
    → Option (Option Word × List Word)
unfolding value_at in_folder
select_program binary path all [] command parameters = some (command, parameters)
select_program binary path all ((key, v) ∷ rest) command parameters =
    if eq_word key (codes "flasher")
    then (do
      changed ← in_folder path parameters
      select_program binary path all rest (some binary) changed)
    else if eq_word key (codes "openocd")
    then (do
      program ← value_at (codes "bin_path") all
      select_program binary path all rest (some program) parameters)
    else select_program binary path all rest command parameters

-- A blank and a parameter, for each parameter.
unfoldable pub append_parameters : List Word → Word
append_parameters [] = []
append_parameters (p ∷ ps) = b' ' ∷ (p ++ append_parameters ps)

-- The entry with the changed parameters, and its command. Without a program the code raises at the first
-- parameter, or, if there is none, when the command is run.
unfoldable pub convert_entry : Word → Word → Command → Option (Command × Word)
unfolding select_program append_parameters
convert_entry binary path ele = do
  (command, parameters) ← select_program binary path ele.programs ele.programs none ele.parameters
  program ← command
  some (record ele { parameters = parameters }, program ++ append_parameters parameters)

unfoldable pub convert_final_command_entries_to_commands :
    Word → Word → List Command → Option (List Command × List Word)
unfolding convert_entry
convert_final_command_entries_to_commands binary path [] = some ([], [])
convert_final_command_entries_to_commands binary path (ele ∷ structure) = do
  (changed, string) ← convert_entry binary path ele
  (rest, strings) ← convert_final_command_entries_to_commands binary path structure
  some (changed ∷ rest, string ∷ strings)
