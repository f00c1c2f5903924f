-- ===== src/Wfp/MultiFlash.antt =====
-- WFP_MULTIFLASH/wfp_test_multiflash.py, `pre_test_step` of TestWfpMultiFlash: one package for all memories.
use org_muhkuh_tools_flasher.Common.{ℕ, suc, ◌*◌, ◌/◌, Option, List, [], ◌∷◌, ◌++◌}
use org_muhkuh_tools_flasher.Common.Io.{Io, ◌>>=◌, ◌>>◌, return, from_option}
use org_muhkuh_tools_flasher.Common.Words.{Word, codes}
use org_muhkuh_tools_flasher.Common.Paths.{join}
use org_muhkuh_tools_flasher.Common.Decimals.{decimal}
use org_muhkuh_tools_flasher.Files.{Place, Disk, write}
use org_muhkuh_tools_flasher.Logfiles.{temporary}
use org_muhkuh_tools_flasher.TestCases.Hexadecimal.{hexadecimal}
use org_muhkuh_tools_flasher.Wfp.Commands.{WfpCommand, Inputs, convert_wfp_commands}
use org_muhkuh_tools_flasher.Wfp.Sizes.{Range, get_random_file_sizes}
use org_muhkuh_tools_flasher.Wfp.Package.{
  Flash, Data, Description, FlashCommand, file_suffix, flash_element, fresh_folder, generate_files,
  name_of, chip_types, hexadecimal_8,
}
use org_muhkuh_tools_flasher.Wfp.Verify.{flasher_command, package_command, bus_port_parameters}

abbrev pub multi_dir : Place → Place
multi_dir root = codes "wfp_archive" ∷ temporary root

abbrev pub multi_zip : Place → Place
multi_zip root = codes "wfp_archive_.zip" ∷ temporary root

-- The files of a memory, which keep the entries of the dictionary.
multi_files : Flash → ℕ → List Range → List Data
unfolding file_suffix decimal
multi_files m i [] = []
multi_files m i (r ∷ rs) =
    record {
      file = codes "random_file_" ++ file_suffix m ++ b'_' ∷ (decimal i ++ codes ".bin");
      range = r;
    }
    ∷ multi_files m (suc i) rs

-- The commands of a memory with its parameters: to erase it, and to verify a file.
module _ (realpath : Word → Word) (plugin_name dir_path : Word) where
  unfoldable pub erase_memory : Word → ℕ → WfpCommand
  unfolding hexadecimal
  erase_memory parameters size =
      flasher_command
        (codes "erase" ∷ parameters ∷ (codes "-l 0x" ++ hexadecimal size) ∷ plugin_name ∷ [])

  unfoldable pub verify_file : Word → Word → ℕ → WfpCommand
  unfolding hexadecimal_8 join
  verify_file parameters name offset = flasher_command (
      codes "verify"
      ∷ parameters
      ∷ plugin_name
      ∷ codes "-s"
      ∷ (codes "0x" ++ hexadecimal_8 offset)
      ∷ realpath (join dir_path name)
      ∷ [])

  verify_files : Flash → List Data → List WfpCommand
  unfolding verify_file bus_port_parameters
  verify_files m [] = []
  verify_files m (f ∷ fs) =
      verify_file (bus_port_parameters m) f.file (f.range.offset * 1024) ∷ verify_files m fs

  erase_all : List (Flash × List Data) → List WfpCommand
  unfolding erase_memory bus_port_parameters
  erase_all [] = []
  erase_all ((m, files) ∷ ms) = erase_memory (bus_port_parameters m) m.size ∷ erase_all ms

  verify_all : List (Flash × List Data) → List WfpCommand
  unfolding verify_files
  verify_all [] = []
  verify_all ((m, files) ∷ ms) = verify_files m files ++ verify_all ms

  -- Both commands of the package have the user input.
  unfoldable pub multi_commands : ℕ → Word → Word → List (Flash × List Data) → List WfpCommand
  unfolding erase_all verify_all
  multi_commands plug_num xml zip ms =
      erase_all ms
      ++ package_command plug_num (codes "pack" ∷ xml ∷ zip ∷ [])
        ∷ package_command plug_num (codes "flash" ∷ zip ∷ [])
        ∷ verify_all ms

elements : List (Flash × List Data) → List FlashCommand
unfolding flash_element
elements [] = []
elements ((m, files) ∷ ms) = flash_element m files ∷ elements ms

module _ {B : Type 0} (rmtree : Place → Io (Disk B) Unit) (generate : Place → ℕ → Io (Disk B) Unit)
    (pretty : Description → Option B) where
  -- The loop over the memories; the numbers of the generator are those for the memory of an index.
  memory_files : (ℕ → ℕ → ℕ) → Place → ℕ → List Flash → Io (Disk B) (List (Flash × List Data))
  unfolding multi_files generate_files get_random_file_sizes ◌>>=◌
  memory_files random dir i [] = return []
  memory_files random dir i (m ∷ ms) = do
    (files, empty) ← from_option (get_random_file_sizes (random i) 1 (m.size / 1024) 4 20)
    generate_files generate dir (multi_files m 0 files)
    rest ← memory_files random dir (suc i) ms
    return ((m, multi_files m 0 files) ∷ rest)

  -- The memories with their files, for which `multi_commands` are the commands.
  unfoldable pub pre_test_step_multi :
      (ℕ → ℕ → ℕ) → Place → ℕ → List Flash → Io (Disk B) (List (Flash × List Data))
  unfolding fresh_folder memory_files elements name_of write ◌>>=◌
  pre_test_step_multi random root chip_id ms = do
    netx ← from_option (name_of chip_types chip_id)
    fresh_folder rmtree (multi_dir root) (multi_zip root)
    files ← memory_files random (multi_dir root) 0 ms
    xml ← from_option (pretty (record { netx = netx; flash_commands = elements files }))
    write (codes "wfp.xml" ∷ multi_dir root) xml
    return files

-- TestWfpMultiFlash has the same conversion.
unfoldable pub convert_multi :
    Word → Word → ℕ → List WfpCommand → Inputs → Option (List WfpCommand × List Word × Inputs)
unfolding convert_wfp_commands
convert_multi = convert_wfp_commands
