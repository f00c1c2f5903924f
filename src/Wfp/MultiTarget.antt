-- ===== src/Wfp/MultiTarget.antt =====
-- WFP_MULTITARGET/wfp_test_multitarget.py: the commands for a package that is there, from its description.
pub mod Steps
pub mod Targets
pub mod OnBoard
use org_muhkuh_tools_flasher.Common.{
  ℕ, zero, suc, ◌≡◌, refl, sym, ◌∙◌, ap, Bool, true, false, ◌&&◌, Option, none, some, List, [], ◌∷◌,
  ◌++◌, ◌==◌, if◌then◌else◌, ◌>>=◌, map,
}
use org_muhkuh_tools_flasher.Common.Words.{Word, codes, eq_word}
use org_muhkuh_tools_flasher.Wfp.Commands.{WfpCommand, Inputs, convert_wfp_commands}
use org_muhkuh_tools_flasher.Wfp.Package.{Flash, name_of, chip_types}
use org_muhkuh_tools_flasher.Wfp.Verify.{package_command}
use org_muhkuh_tools_flasher.Wfp.MultiFlash.{erase_memory, verify_file}

-- `FLASHER_BUS_NAME`
abbrev pub flasher_bus_names : List (Word × ℕ)
flasher_bus_names =
    (codes "Parflash", 0) ∷ (codes "Spi", 1) ∷ (codes "IFlash", 2) ∷ (codes "SDIO", 3) ∷ []

unfoldable pub bus_of : List (Word × ℕ) → Word → Option ℕ
bus_of [] w = none
bus_of ((k, n) ∷ rest) w = if eq_word k w then some n else bus_of rest w

-- The elements of wfp.xml, which have all their attributes.
pub record FlashElement : Type 0 where
  pub bus : Word
  pub unit : Word
  pub chip_select : Word
  pub files : List (Word × Word)

pub record Target : Type 0 where
  pub tag : Word
  pub netx : Word
  pub commands : List FlashElement

-- A command with the number of its bus.
pub record FlashData : Type 0 where
  pub bus_number : ℕ
  pub command : FlashElement

pub number_buses : List FlashElement → Option (List FlashData)
unfolding bus_of
number_buses [] = some []
number_buses (c ∷ cs) = do
  n ← bus_of flasher_bus_names c.bus
  rest ← number_buses cs
  some (record { bus_number = n; command = c } ∷ rest)

numbered : List FlashElement → Option (Option (List FlashData))
unfolding number_buses
numbered cs = do ds ← number_buses cs; some (some ds)

-- The loop over the targets, with the data so far: the last target of the chip counts.
unfoldable pub get_target_data :
    ℕ → List Target → Option (List FlashData) → Option (Option (List FlashData))
unfolding name_of numbered
get_target_data chip_id [] found = some found
get_target_data chip_id (t ∷ ts) found =
    if eq_word t.tag (codes "Target")
    then (do
      netx ← name_of chip_types chip_id
      changed ← if eq_word t.netx netx then numbered t.commands else some found
      get_target_data chip_id ts changed)
    else get_target_data chip_id ts found

-- TestWfpMultiTarget has the same conversion.
unfoldable pub convert_target :
    Word → Word → ℕ → List WfpCommand → Inputs → Option (List WfpCommand × List Word × Inputs)
unfolding convert_wfp_commands
convert_target = convert_wfp_commands
