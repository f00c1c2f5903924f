-- ===== src/Wfp/Tests.antt =====
-- The files of a flash, at examples.
use org_muhkuh_tools_flasher.Common.{
  ℕ, zero, suc, ◌+◌, ◌-◌, ◌*◌, ◌≤◌, ◌≡◌, refl, true, Option, none, some, List, [], ◌∷◌, length,
  arith, map,
}
use org_muhkuh_tools_flasher.Wfp.Sizes.{Range, in_order, last_end, get_random_file_sizes}
use org_muhkuh_tools_flasher.Wfp.Runs.{holders, Placed}
use org_muhkuh_tools_flasher.Wfp.Cover.{get_random_file_sizes-covers, get_random_file_sizes-Placed}
use org_muhkuh_tools_flasher.Wfp.Returns.{get_random_file_sizes-returns}
use org_muhkuh_tools_flasher.Common.{All}
use org_muhkuh_tools_flasher.Common.Words.{Word, codes}
use org_muhkuh_tools_flasher.Dyntest.Commands.{Command, convert_final_command_entries_to_commands}
use org_muhkuh_tools_flasher.Wfp.Commands.{WfpCommand, convert_wfp_commands}
use org_muhkuh_tools_flasher.Wfp.Plain.{plain, with_commands, convert_wfp_commands-plain}
use org_muhkuh_tools_flasher.Wfp.Package.{Flash, Data}
use org_muhkuh_tools_flasher.Wfp.Verify.{Paths, wfp_flash_commands}
use org_muhkuh_tools_flasher.Wfp.Inputs.{flash_input, wfp_flash_commands-inputs}
use org_muhkuh_tools_flasher.Wfp.MultiTarget.{Target}
use org_muhkuh_tools_flasher.Wfp.MultiTarget.Targets.{IsLastTarget}
use org_muhkuh_tools_flasher.Wfp.MultiTarget.Steps.{prepared, prepare_target}
use org_muhkuh_tools_flasher.Wfp.MultiTarget.OnBoard.{
  HasMemory, prepared_value, prepare_target-OnBoard,
}

abbrev drawn : List ℕ → ℕ → ℕ
drawn [] n = 0
drawn (x ∷ xs) n = elim n [ zero ↦ x | suc m ↦ drawn xs m ]

-- A flash of 1 MiB in three parts, with one file of 1 KiB in the first, and the second next to its end.
abbrev numbers : List ℕ
numbers = 0 ∷ 1 ∷ 0 ∷ 85 ∷ 3 ∷ 0 ∷ []

abbrev range : ℕ → ℕ → Range
range offset end = record { offset = offset; end_offset = end; size = end - offset }

abbrev files : List Range
files = range 4 5 ∷ range 680 681 ∷ range 680 684 ∷ []

abbrev empty : List Range
empty = range 0 4 ∷ range 5 680 ∷ range 684 1024 ∷ []

-- Both files have the KiB at 680, and nothing refuses them.
overlap : get_random_file_sizes (drawn numbers) 3 1024 4 20 ≡ some (files, empty)
unfolding get_random_file_sizes
overlap = refl

overlap_holders : holders 680 files ≡ 2
overlap_holders = refl

get_random_file_sizes-Placed_example :
    (length files ≡ 3) × Placed 3 1024 4 20 0 files × (last_end 0 files ≤ 1024)
get_random_file_sizes-Placed_example =
    get_random_file_sizes-Placed 3 1024 4 20 (drawn numbers) files empty overlap

abbrev first_files : List Range
first_files = range 0 1 ∷ range 344 345 ∷ range 684 688 ∷ []

abbrev first_empty : List Range
first_empty = range 0 344 ∷ range 345 684 ∷ range 688 1024 ∷ []

-- The first file lies at the start, and the first empty range is that up to the second file.
first_run :
    get_random_file_sizes (drawn (0 ∷ 0 ∷ 0 ∷ 1 ∷ 3 ∷ 1 ∷ [])) 3 1024 4 20
    ≡ some (first_files, first_empty)
unfolding get_random_file_sizes
first_run = refl

get_random_file_sizes-covers_example : holders 0 first_files + holders 0 first_empty ≡ 2
unfolding in_order
get_random_file_sizes-covers_example =
    get_random_file_sizes-covers 3 1024 4 20 (drawn (0 ∷ 0 ∷ 0 ∷ 1 ∷ 3 ∷ 1 ∷ [])) 0 (range 0 1)
      (range 344 345 ∷ range 684 688 ∷ []) first_empty first_run refl (omega arith)

get_random_file_sizes-returns_example :
    (fs es : List Range) × (get_random_file_sizes (drawn numbers) 1 (1 * (4 * 256)) 4 20
      ≡ some (fs, es))
    × (in_order fs ≡ true)
get_random_file_sizes-returns_example =
    get_random_file_sizes-returns 1 256 4 20 (omega arith) (drawn numbers) (omega arith)
      (omega arith)

-- A command of the flasher and one of openocd; no package.
abbrev commands : List Command
commands =
    record {
      programs = (codes "flasher", codes "True") ∷ [];
      parameters = codes "cli_flash.lua" ∷ [];
    }
    ∷ record {
      programs = (codes "openocd", codes "True") ∷ (codes "bin_path", codes "/o") ∷ [];
      parameters = codes "-s" ∷ [];
    }
    ∷ []

convert_wfp_commands-plain_example :
    convert_wfp_commands (codes "/f/lua") (codes "/f") 0 (map plain commands) []
    ≡ with_commands
        (codes "/f/lua")
        (codes "/f")
        []
        (convert_final_command_entries_to_commands (codes "/f/lua") (codes "/f") commands)
convert_wfp_commands-plain_example =
    convert_wfp_commands-plain (codes "/f/lua") (codes "/f") 0 commands []
      ((refl, tt), ((refl, (refl, tt)), tt))

abbrev spi : Flash
spi = record { b = 1; u = 0; cs = 0; size = 1048576 }

abbrev paths : Paths
paths = record {
  plug_num = 1;
  memory = spi;
  plugin_name = codes "-p jtag";
  wfp_dir_path = codes "/w";
  wfp_zip_path = codes "/w.zip";
  wfp_xml_path = codes "/w/wfp.xml";
}

abbrev data_file : Data
data_file = record { file = codes "random_file_0.bin"; range = range 4 5 }

wfp_flash_commands-inputs_example :
    (changed : List WfpCommand) × (strings : List Word) × (convert_wfp_commands
        (codes "/f/lua")
        (codes "/f")
        0
        (wfp_flash_commands paths (data_file ∷ []) [])
        []
      ≡ some (changed, strings, flash_input 1))
    × (length strings ≡ 3 + length (data_file ∷ []) + length {A = Data} [])
wfp_flash_commands-inputs_example =
    wfp_flash_commands-inputs (codes "/f/lua") (codes "/f") paths (data_file ∷ []) []

abbrev digit_of : Word → Option ℕ
digit_of [] = none
digit_of (c ∷ w) = some (c - 48)

abbrev targets : List Target
targets =
    record {
      tag = codes "Target";
      netx = codes "NETX90";
      commands =
          record {
            bus = codes "Spi";
            unit = codes "0";
            chip_select = codes "0";
            files = (codes "a.bin", codes "8") ∷ [];
          }
          ∷ [];
    }
    ∷ []

abbrev target_structure : List WfpCommand
target_structure =
    prepared_value
      (prepare_target digit_of digit_of (λ w. w) (codes "-p jtag") (codes "/w") (codes "/w.zip") 1
        (spi ∷ []) 14 targets)
      []

prepare_target_example :
    prepare_target digit_of digit_of
      (λ w. w)
      (codes "-p jtag")
      (codes "/w")
      (codes "/w.zip")
      1
      (spi ∷ [])
      14
      targets
    ≡ prepared target_structure
unfolding prepare_target
prepare_target_example = refl

prepare_target-OnBoard_example :
    (t : Target) × IsLastTarget 14 targets t
    × All (HasMemory digit_of digit_of (spi ∷ [])) t.commands
prepare_target-OnBoard_example =
    prepare_target-OnBoard digit_of digit_of (λ w. w) (codes "-p jtag") (codes "/w")
      (codes "/w.zip") 1 (spi ∷ []) 14 targets target_structure prepare_target_example
