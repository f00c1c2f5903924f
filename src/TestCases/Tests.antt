-- ===== src/TestCases/Tests.antt =====
-- The data and the commands of the standard test, at an example.
use org_muhkuh_tools_flasher.Common.{ℕ, ◌≡◌, refl, true, false, some, [], ◌∷◌}
use org_muhkuh_tools_flasher.Common.Words.{codes}
use org_muhkuh_tools_flasher.Common.Integers.{pos}
use org_muhkuh_tools_flasher.Files.{Place, directory, Disk}
use org_muhkuh_tools_flasher.Logfiles.{temporary, working}
use org_muhkuh_tools_flasher.Dyntest.{Test, bytes}
use org_muhkuh_tools_flasher.TestCases.{length_parameter}
use org_muhkuh_tools_flasher.TestCases.Data.{pre_test_step}

length_example : length_parameter (some (bytes 6699)) ≡ some (codes "-l 0x1a2b")
unfolding length_parameter
length_example = refl

abbrev root : Place
root = codes "logs" ∷ [] ∷ []

abbrev disk : Disk ℕ
disk = record {
  nodes = (temporary root, directory) ∷ (working root, directory) ∷ (root, directory) ∷ [];
  refuses = λ p. false;
}

abbrev test : Test
test = record {
  class_name = codes "T";
  uuid_test = codes "u";
  logfile_prefix = [];
  last_comment = [];
  iteration_index = 1;
  num_errors = pos 0;
  bool_params_init = true;
  bool_interrupt_batch = false;
  plugin_name = codes "-p x";
  bus_port_parameters_flasher = codes "-b 1 -u 0 -cs 0";
  test_binary_size = some (bytes 5120);
  flasher_binary = codes "/bin/lua";
  path_lua_files = codes "/lua";
  command_structure = [];
  command_strings = [];
}

abbrev urandom : ℕ → ℕ
urandom n = n

abbrev prepared : Disk ℕ
unfolding pre_test_step
prepared = (pre_test_step urandom root test (bytes 5120) disk).1
