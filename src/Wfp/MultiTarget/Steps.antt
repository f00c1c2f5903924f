-- ===== src/Wfp/MultiTarget/Steps.antt =====
-- `pre_test_step` of TestWfpMultiTarget: each memory of the package is looked for on the board.
use org_muhkuh_tools_flasher.Common.{
  ℕ, Bool, true, false, Option, none, some, List, [], ◌∷◌, ◌++◌, ◌==◌, if◌then◌else◌,
}
use org_muhkuh_tools_flasher.Common.Words.{Word, codes}
use org_muhkuh_tools_flasher.Common.Decimals.{decimal}
use org_muhkuh_tools_flasher.Wfp.Commands.{WfpCommand}
use org_muhkuh_tools_flasher.Wfp.Package.{Flash}
use org_muhkuh_tools_flasher.Wfp.Verify.{package_command}
use org_muhkuh_tools_flasher.Wfp.MultiFlash.{erase_memory, verify_file}
use org_muhkuh_tools_flasher.Wfp.MultiTarget.{FlashData, Target, get_target_data}

-- A result, an exception, or the test is skipped.
pub data Prepared (A : Type 0) : Type 0 where
  prepared : A → Prepared A
  raised skipped : Prepared A

infixl 10 ◌>>=◌
abbrev pub ◌>>=◌ : {A B : Type 0} → Prepared A → (A → Prepared B) → Prepared B
prepared a >>= f = f a
raised >>= f = raised
skipped >>= f = skipped

abbrev pub or_raised : {A : Type 0} → Option A → Prepared A
or_raised none = raised
or_raised (some a) = prepared a

-- The bus is a number, the unit and the chip select are texts of the package.
unfoldable pub parameters_of : FlashData → Word
unfolding decimal
parameters_of d =
    codes "-b "
    ++ decimal d.bus_number
    ++ codes " -u "
    ++ d.command.unit
    ++ codes " -cs "
    ++ d.command.chip_select

-- With `int(text)` and `int(text, 16)`, which raise for another text.
module _ (int : Word → Option ℕ) (int_16 : Word → Option ℕ) where
  unfoldable pub same_chip_select : Word → Flash → Prepared Bool
  same_chip_select cs m = do c ← or_raised (int cs); prepared (m.cs == c)

  -- `mem["b"] == bus and mem["u"] == int(unit) and mem["cs"] == int(chip_select)`
  unfoldable pub is_memory : ℕ → Word → Word → Flash → Prepared Bool
  unfolding same_chip_select
  is_memory bus unit cs m =
      if m.b == bus
      then (do
        u ← or_raised (int unit)
        elim (m.u == u) [ true ↦ same_chip_select cs m | false ↦ prepared false ])
      else prepared false

  unfoldable pub find_memory : ℕ → Word → Word → List Flash → Prepared Flash
  unfolding is_memory
  find_memory bus unit cs [] = skipped
  find_memory bus unit cs (m ∷ ms) = do
    found ← is_memory bus unit cs m
    if found then prepared m else find_memory bus unit cs ms

  module _ (realpath : Word → Word) (plugin_name dir_path zip_path : Word) (plug_num : ℕ)
      (memories : List Flash) where
    unfoldable pub verify_elements : Word → List (Word × Word) → Prepared (List WfpCommand)
    unfolding verify_file
    verify_elements parameters [] = prepared []
    verify_elements parameters ((name, text) ∷ files) = do
      offset ← or_raised (int_16 text)
      rest ← verify_elements parameters files
      prepared (verify_file realpath plugin_name dir_path parameters name offset ∷ rest)

    -- The commands of one flash: it is erased, the package is flashed, and the files are verified.
    unfoldable pub flash_commands : FlashData → Prepared (List WfpCommand)
    unfolding find_memory erase_memory verify_elements parameters_of
    flash_commands d = do
      m ← find_memory d.bus_number d.command.unit d.command.chip_select memories
      verifies ← verify_elements (parameters_of d) d.command.files
      prepared (
          erase_memory realpath plugin_name dir_path (parameters_of d) m.size
          ∷ package_command plug_num (codes "flash" ∷ zip_path ∷ [])
          ∷ verifies)

    unfoldable pub target_commands : List FlashData → Prepared (List WfpCommand)
    unfolding flash_commands
    target_commands [] = prepared []
    target_commands (d ∷ ds) = do
      commands ← flash_commands d
      rest ← target_commands ds
      prepared (commands ++ rest)

    -- Without a target of the chip the data has no key "target".
    unfoldable pub pre_test_step_target : Option (List FlashData) → Prepared (List WfpCommand)
    unfolding target_commands
    pre_test_step_target none = raised
    pre_test_step_target (some ds) = target_commands ds

    -- `init_params`, which reads the description, and `pre_test_step`.
    unfoldable pub prepare_target : ℕ → List Target → Prepared (List WfpCommand)
    unfolding get_target_data pre_test_step_target
    prepare_target chip_id ts = do
      found ← or_raised (get_target_data chip_id ts none)
      pre_test_step_target found
