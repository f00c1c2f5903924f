-- ===== src/TestCases.antt =====
-- regression/FLT_STANDARD, FLT_HASH, FLT_TIMING, NXTFLASHER_51 and NXTFLASHER_55: the files and the commands
-- of the test cases. With generate_randome_file_by_size_and_name of simpelTools/src/filetools.py.
pub mod Hexadecimal
pub mod Data
pub mod Archived
mod Tests
use org_muhkuh_tools_flasher.Common.{
  ℕ, Bool, true, false, Option, none, some, List, [], ◌∷◌, ◌++◌, ◌>>=◌,
}
use org_muhkuh_tools_flasher.Common.Words.{Word, codes}
use org_muhkuh_tools_flasher.Common.Paths.{join}
use org_muhkuh_tools_flasher.Dyntest.{Size, bytes, text, Test}
use org_muhkuh_tools_flasher.Dyntest.Commands.{Command}
use org_muhkuh_tools_flasher.TestCases.Hexadecimal.{hexadecimal}

-- `{"flasher": True}`
abbrev enable_flasher : List (Word × Word)
enable_flasher = (codes "flasher", codes "True") ∷ []

-- A command of the script of the flasher.
abbrev cli_flash : List Word → Command
cli_flash parameters = record {
  programs = enable_flasher;
  parameters = codes "cli_flash.lua" ∷ parameters;
}

-- `"-l 0x%x" % size`: a text or a missing size raises.
unfoldable pub length_parameter : Option Size → Option Word
unfolding hexadecimal
length_parameter none = none
length_parameter (some (text w)) = none
length_parameter (some (bytes n)) = some (codes "-l 0x" ++ hexadecimal n)

module _ (t : Test) where
  abbrev bus : Word
  bus = t.bus_port_parameters_flasher

  abbrev plugin : Word
  plugin = t.plugin_name

  unfoldable pub flt_standard_sqi_flash_commands : Word → Word → Option (List Command)
  unfolding length_parameter
  flt_standard_sqi_flash_commands written read_back = do
    len ← length_parameter t.test_binary_size
    some (
        cli_flash (codes "-h" ∷ [])
        ∷ cli_flash (codes "-version" ∷ [])
        ∷ cli_flash (codes "list_interfaces" ∷ [])
        ∷ cli_flash (codes "info" ∷ plugin ∷ [])
        ∷ cli_flash (codes "detect_netx" ∷ plugin ∷ [])
        ∷ cli_flash (codes "detect" ∷ bus ∷ plugin ∷ [])
        ∷ cli_flash (codes "erase" ∷ bus ∷ len ∷ plugin ∷ [])
        ∷ cli_flash (codes "flash" ∷ bus ∷ plugin ∷ written ∷ [])
        ∷ cli_flash (codes "read" ∷ bus ∷ len ∷ plugin ∷ read_back ∷ [])
        ∷ cli_flash (codes "verify" ∷ bus ∷ plugin ∷ written ∷ [])
        ∷ [])

  unfoldable pub flt_testcli_sqi_flash_commands : List Command
  flt_testcli_sqi_flash_commands = cli_flash (codes "testcli" ∷ plugin ∷ bus ∷ []) ∷ []

  unfoldable pub flt_standard_other_flash_commands : Word → Word → Option (List Command)
  unfolding length_parameter
  flt_standard_other_flash_commands written read_back = do
    len ← length_parameter t.test_binary_size
    some (
        cli_flash (codes "detect" ∷ bus ∷ plugin ∷ [])
        ∷ cli_flash (codes "flash" ∷ bus ∷ plugin ∷ written ∷ [])
        ∷ cli_flash (codes "read" ∷ bus ∷ len ∷ plugin ∷ read_back ∷ [])
        ∷ cli_flash (codes "verify" ∷ bus ∷ plugin ∷ written ∷ [])
        ∷ cli_flash (codes "erase" ∷ bus ∷ len ∷ plugin ∷ [])
        ∷ [])

  unfoldable pub flt_hash_commands : Word → Option (List Command)
  unfolding length_parameter
  flt_hash_commands written = do
    len ← length_parameter t.test_binary_size
    some (
        cli_flash (codes "flash" ∷ bus ∷ plugin ∷ written ∷ [])
        ∷ cli_flash (codes "verify_hash" ∷ bus ∷ plugin ∷ written ∷ [])
        ∷ cli_flash (codes "hash" ∷ bus ∷ len ∷ plugin ∷ [])
        ∷ [])

  unfoldable pub flt_timing_commands : Word → Word → Word → Option (List Command)
  unfolding length_parameter
  flt_timing_commands first second read_back = do
    len ← length_parameter t.test_binary_size
    some (
        cli_flash (codes "erase" ∷ bus ∷ len ∷ plugin ∷ [])
        ∷ cli_flash (codes "flash" ∷ bus ∷ plugin ∷ first ∷ [])
        ∷ cli_flash (codes "flash" ∷ bus ∷ plugin ∷ second ∷ [])
        ∷ cli_flash (codes "read" ∷ bus ∷ len ∷ plugin ∷ read_back ∷ [])
        ∷ cli_flash (codes "erase" ∷ bus ∷ len ∷ plugin ∷ [])
        ∷ [])

  unfoldable pub nxtflasher_51_commands : Word → List Command
  unfolding join
  nxtflasher_51_commands file_dir =
      let image = bus ++ b' ' ∷ join file_dir (codes "kk_image.bin") in
      cli_flash (codes "flash" ∷ plugin ∷ image ∷ [])
      ∷ cli_flash (codes "verify" ∷ plugin ∷ image ∷ [])
      ∷ []

  abbrev in_test_files : Word → Word → Word
  unfolding join
  in_test_files file_dir name = join (join file_dir (codes "test_files")) name

  -- The folder of the work files, the folder of the test, and the path of openocd.
  unfoldable pub nxtflasher_55_commands : Word → Word → Word → List Command
  unfolding join in_test_files
  nxtflasher_55_commands work file_dir openocd =
      let reset = join (join file_dir (codes "board")) (codes "reset_netx90_rev0.cfg") in
      cli_flash (
        codes "verify"
        ∷ plugin
        ∷ (codes "-b 2 -u 2 -cs 0 " ++ in_test_files file_dir (codes "APP_iflash.bin"))
        ∷ [])
      ∷ cli_flash (
          codes "read"
          ∷ plugin
          ∷ (codes "-b 2 -u 0 -cs 1 -l 0x1000 " ++ join work (codes "iflash0_info.bin_readback"))
          ∷ [])
      ∷ cli_flash (
          codes "read"
          ∷ plugin
          ∷ (codes "-b 2 -u 1 -cs 1 -l 0x1000 " ++ join work (codes "iflash1_info.bin_readback"))
          ∷ [])
      ∷ cli_flash (
          codes "read"
          ∷ plugin
          ∷ (codes "-b 2 -u 2 -cs 1 -l 0x1000 " ++ join work (codes "iflash2_info.bin_readback"))
          ∷ [])
      ∷ cli_flash (
          codes "verify"
          ∷ plugin
          ∷ (codes "-b 2 -u 0 -cs 1 " ++ in_test_files file_dir (codes "iflash0_info.bin_ref"))
          ∷ [])
      ∷ cli_flash (
          codes "verify"
          ∷ plugin
          ∷ (codes "-b 2 -u 2 -cs 1 " ++ in_test_files file_dir (codes "iflash2_info.bin_ref"))
          ∷ [])
      ∷ cli_flash (
          codes "verify"
          ∷ plugin
          ∷ (codes "-b 2 -u 1 -cs 1 " ++ in_test_files file_dir (codes "iflash1_info.bin_ref"))
          ∷ [])
      ∷ record {
        programs = (codes "openocd", codes "True") ∷ (codes "bin_path", openocd) ∷ [];
        parameters =
            (codes "--search "
              ++ file_dir
              ++ codes " --file "
              ++ reset
              ++ codes " --command shutdown")
            ∷ [];
      }
      ∷ cli_flash (
          codes "flash"
          ∷ plugin
          ∷ (codes "-b 2 -u 2 -cs 0 " ++ in_test_files file_dir (codes "APP_iflash.bin"))
          ∷ [])
      ∷ []
