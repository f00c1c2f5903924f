-- ===== src/Dyntest/Tests.antt =====
-- A test with two commands, one of which fails.
use org_muhkuh_tools_flasher.Common.{
  ℕ, ◌≡◌, refl, sym, some-injective, true, false, Option, none, some, List, [], ◌∷◌, ◌⊎◌,
}
use org_muhkuh_tools_flasher.Common.Words.{Word, codes, join_words}
use org_muhkuh_tools_flasher.Common.Integers.{ℤ, pos}
use org_muhkuh_tools_flasher.Files.{Place, Disk}
use org_muhkuh_tools_flasher.Logfiles.{Formats, temporary}
use org_muhkuh_tools_flasher.Carriers.System.{World, CommandSystem}
use org_muhkuh_tools_flasher.Carriers.{Carrier}
use org_muhkuh_tools_flasher.Carriers.Example.{working_system}
use org_muhkuh_tools_flasher.Dyntest.{
  Memory, Size, bytes, text, le_size, Test, init_params, convert_commands,
}
use org_muhkuh_tools_flasher.Dyntest.Run.{Bench, result_of, add_errors, run_batch_commands}
use org_muhkuh_tools_flasher.Dyntest.Run.Errors.{
  Returned, AllRun, BatchResult, AllReturnZero, run_batch_commands-errors,
}
use org_muhkuh_tools_flasher.Dyntest.Summary.{text_of}
use org_muhkuh_tools_flasher.Dyntest.Sizes.{init_params-size}

abbrev fresh : Test
fresh = record {
  class_name = codes "T";
  uuid_test = codes "u";
  logfile_prefix = [];
  last_comment = [];
  iteration_index = 1;
  num_errors = pos 0;
  bool_params_init = false;
  bool_interrupt_batch = false;
  plugin_name = [];
  bus_port_parameters_flasher = [];
  test_binary_size = none;
  flasher_binary = codes "/bin/lua";
  path_lua_files = codes "/lua";
  command_structure =
      record {
        programs = (codes "flasher", []) ∷ [];
        parameters = codes "cli.lua" ∷ codes "detect" ∷ [];
      }
      ∷ record {
        programs = (codes "bin_path", codes "/bin/ocd") ∷ (codes "openocd", []) ∷ [];
        parameters = codes "-c" ∷ codes "halt!" ∷ [];
      }
      ∷ [];
  command_strings = [];
}

abbrev strings_of : Option Test → List Word
strings_of none = []
strings_of (some t) = t.command_strings

commands_example :
    strings_of (convert_commands fresh)
    ≡ codes "/bin/lua /lua/cli.lua detect" ∷ codes "/bin/ocd -c halt!" ∷ []
unfolding convert_commands
commands_example = refl

abbrev flash : Memory
flash = record { b = 1; u = 0; cs = 0; name = codes "W25Q32"; size = bytes 4096 }

init_params-size_example :
    (s : Size) × ((init_params (codes "p") flash (text []) [] [] fresh).test_binary_size ≡ some s)
    × (le_size s (bytes 4096) ≡ true)
    × ((s ≡ text []) ⊎ (s ≡ bytes 4096))
    × ((init_params (codes "p") flash (text []) [] [] fresh).bool_params_init ≡ true)
init_params-size_example = init_params-size (codes "p") flash (text []) [] [] fresh

abbrev test : Test
test = record fresh {
  command_strings = codes "/bin/lua /lua/cli.lua detect" ∷ codes "/bin/ocd -c halt!" ∷ [];
}

abbrev sys : CommandSystem (Disk ℕ) ℕ
sys = working_system

abbrev formats : Formats ℕ
formats = record { zip = λ nodes. 0; json = λ r. 0 }

abbrev bench : Bench ℕ
bench = record {
  world = record { cwd = codes "/home"; rest = record { nodes = []; refuses = λ p. false } };
  unique_log_index = 0;
  num_errors_a = [];
}

abbrev root : Place
root = codes "logs" ∷ [] ∷ []

abbrev ran : Option Test × Bench ℕ
unfolding run_batch_commands
ran = run_batch_commands sys formats root test bench

run_batch_commands-errors_example :
    (n : ℤ) × (add_errors sys formats test (pos 1) ≡ add_errors sys formats test n)
    × (ran.1.num_errors_a ≡ result_of sys formats (add_errors sys formats test (pos 1)) ∷ [])
    × BatchResult sys formats (text_of (temporary root)) test bench.world n
    × (n ≡ pos 0
        → (ds : List (Carrier ℕ)) × (u : World (Disk ℕ)) × Returned sys formats
            (text_of (temporary root))
            test
            bench.world
            (some ds)
            u
          × AllRun sys formats (text_of (temporary root)) test ds
          × AllReturnZero ds)
unfolding ran join_words
run_batch_commands-errors_example =
    run_batch_commands-errors sys formats root test (add_errors sys formats test (pos 1)) bench
      ran.1 (λ here r there e. sym (some-injective (codes "/home") there e)) refl
