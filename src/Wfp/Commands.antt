-- ===== src/Wfp/Commands.antt =====
-- `convert_final_command_entries_to_commands`, which the four classes have in the same words, and which adds the
-- packages to that of Flashertest.
use org_muhkuh_tools_flasher.Common.{
  ℕ, zero, suc, Option, none, some, List, [], ◌∷◌, ◌++◌, if◌then◌else◌, ◌>>=◌,
}
use org_muhkuh_tools_flasher.Common.Words.{Word, codes, eq_word}
use org_muhkuh_tools_flasher.Dyntest.Commands.{in_folder, append_parameters}

-- What stands under a program: a text or `True`, or the dictionary of a package with its user input.
pub data Setting : Type 0 where
  text : Word → Setting
  options : Option ℕ → Setting

pub record WfpCommand : Type 0 where
  pub programs : List (Word × Setting)
  pub parameters : List Word

-- The user inputs, by the index of their command; a later one replaces an earlier one.
abbrev pub Inputs : Type 0
Inputs = List (ℕ × ℕ)

abbrev pub setting_at : Word → List (Word × Setting) → Option Setting
setting_at key [] = none
setting_at key ((k, v) ∷ rest) = if eq_word k key then some v else setting_at key rest

-- Only a text can be the start of a command.
abbrev pub text_of : Option Setting → Option Word
text_of none = none
text_of (some (options input)) = none
text_of (some (text w)) = some w

-- `if user_input:` leaves 0 out; `.get` of a text raises.
assign : ℕ → Setting → Inputs → Option Inputs
assign idx (text w) inputs = none
assign idx (options none) inputs = some inputs
assign idx (options (some zero)) inputs = some inputs
assign idx (options (some (suc n))) inputs = some ((idx, suc n) ∷ inputs)

-- The loop over the programs of a command, with what is changed so far.
pub record Selected : Type 0 where
  pub command : Option Word
  pub parameters : List Word
  pub inputs : Inputs

module _ (binary path : Word) where
  unfoldable pub select_wfp :
      ℕ → List (Word × Setting) → List (Word × Setting) → Selected → Option Selected
  unfolding in_folder assign
  select_wfp idx all [] s = some s
  select_wfp idx all ((key, v) ∷ rest) s =
      if eq_word key (codes "flasher")
      then (do
        changed ← in_folder path s.parameters
        select_wfp idx all rest (record s { command = some binary; parameters = changed }))
      else if eq_word key (codes "openocd")
      then (do
        program ← text_of (setting_at (codes "bin_path") all)
        select_wfp idx all rest (record s { command = some program }))
      else if eq_word key (codes "bin_path")
      then select_wfp idx all rest s
      else if eq_word key (codes "wfp")
      then (do
        changed ← in_folder path s.parameters
        inputs ← assign idx v s.inputs
        select_wfp idx all rest
            (record { command = some binary; parameters = changed; inputs = inputs }))
      else select_wfp idx all rest s

  -- The command of an entry, its changed parameters, and the inputs.
  unfoldable pub convert_wfp_entry : ℕ → WfpCommand → Inputs → Option (WfpCommand × Word × Inputs)
  unfolding select_wfp append_parameters
  convert_wfp_entry idx ele inputs = do
    s ←
        select_wfp idx ele.programs ele.programs
          (record { command = none; parameters = ele.parameters; inputs = inputs })
    program ← s.command
    some (
      record ele { parameters = s.parameters },
      program ++ append_parameters s.parameters,
      s.inputs,
    )

  unfoldable pub convert_wfp_commands :
      ℕ → List WfpCommand → Inputs → Option (List WfpCommand × List Word × Inputs)
  unfolding convert_wfp_entry
  convert_wfp_commands idx [] inputs = some ([], [], inputs)
  convert_wfp_commands idx (ele ∷ structure) inputs = do
    (changed, string, next) ← convert_wfp_entry idx ele inputs
    (rest, strings, final) ← convert_wfp_commands (suc idx) structure next
    some (changed ∷ rest, string ∷ strings, final)
