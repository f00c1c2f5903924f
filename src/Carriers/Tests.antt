-- ===== src/Carriers/Tests.antt =====
-- A batch of two commands.
use org_muhkuh_tools_flasher.Common.{ℕ, ◌≡◌, refl, true, false, Option, none, some, List, [], ◌∷◌}
use org_muhkuh_tools_flasher.Common.Words.{Word, codes}
use org_muhkuh_tools_flasher.Batch.{ReturnValue, unset, exit_code}
use org_muhkuh_tools_flasher.Carriers.System.{World, no_stream, CommandSystem}
use org_muhkuh_tools_flasher.Carriers.Texts.{strip_command_arguments, directory_name}
use org_muhkuh_tools_flasher.Carriers.{Carrier, batch_command_base}
use org_muhkuh_tools_flasher.Carriers.Example.{working_system}
use org_muhkuh_tools_flasher.Carriers.Works.{Works}

strip_example :
    strip_command_arguments (codes "/my/bin/path.bin  /may/file/my.file -p 1")
    ≡ codes "path.bin my.file -p 1"
unfolding strip_command_arguments
strip_example = refl

directory_name_example : directory_name (codes "/a/b/c") ≡ codes "/a/b"
unfolding directory_name
directory_name_example = refl

abbrev sys : CommandSystem ℕ ℕ
sys = working_system

abbrev plain : Carrier ℕ
plain = record {
  id = none;
  time_start = none;
  time_end = none;
  time_execute = none;
  cmd = [];
  executed = false;
  change_dir_to_bin = true;
  ret_val = unset;
  str_stdout = [];
  str_stderr = [];
  direct_out = false;
  direct_err = false;
  path_stdout = none;
  path_stderr = none;
  stream_stdout = no_stream;
  stream_stderr = no_stream;
}

abbrev commands : List Word
commands = codes "/bin/ls -l" ∷ codes "/bin/false!" ∷ []

abbrev world : World ℕ
world = record { cwd = codes "/home"; rest = 0 }

abbrev ran : Option (Option (List (Carrier ℕ))) × World ℕ
unfolding batch_command_base
ran = batch_command_base sys plain commands (codes "/logs") (codes "u") world

abbrev codes_of : Option (Option (List (Carrier ℕ))) → List ReturnValue
codes_of (some (some ds)) = go ds
  where
    go : List (Carrier ℕ) → List ReturnValue
    go [] = []
    go (d ∷ ds) = d.ret_val ∷ go ds
codes_of (some none) = []
codes_of none = []

ran_codes : codes_of ran.0 ≡ exit_code 0 ∷ exit_code 3 ∷ []
unfolding ran
ran_codes = refl

abbrev given : Option (Option (List (Carrier ℕ))) → Option (List (Carrier ℕ))
given none = none
given (some o) = o
