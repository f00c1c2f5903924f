-- ===== src/Dyntest.antt =====
-- regression/common/SW_Test_flasher/src/class_dyntest.py: one test of the flasher, from its parameters and
-- its commands to the summary of its batch and the archive of its log files. The classes of the tests
-- provide what is done before, and the commands; these are parameters.
pub mod Commands
pub mod Summary
pub mod Run
pub mod Sizes
mod Tests
use org_muhkuh_tools_flasher.Common.{
  ℕ, zero, suc, Bool, true, false, not, ◌&&◌, ◌||◌, Option, none, some, List, [], ◌∷◌, ◌++◌, length,
  leb, ltb, if◌then◌else◌,
}
use org_muhkuh_tools_flasher.Common.Io.{Io, ◌>>=◌, ◌>>◌, return, raise, gets, modify, from_option}
use org_muhkuh_tools_flasher.Common.Words.{Word, codes, eq_word}
use org_muhkuh_tools_flasher.Common.Paths.{join}
use org_muhkuh_tools_flasher.Common.Decimals.{decimal}
use org_muhkuh_tools_flasher.Common.Integers.{ℤ, pos, negsuc, ◌+ℤ◌}
use org_muhkuh_tools_flasher.Dyntest.Commands.{Command, convert_final_command_entries_to_commands}

-- A size is a number of bytes or a text; Python 2 orders every text after every number, and texts by their
-- characters.
pub data Size : Type 0 where
  bytes : ℕ → Size
  text : Word → Size

abbrev le_text : Word → Word → Bool
le_text [] t = true
le_text (c ∷ s) [] = false
le_text (c ∷ s) (d ∷ t) = let rest = le_text s t in ltb c d || (leb c d && rest)

unfoldable pub le_size : Size → Size → Bool
le_size (bytes m) (bytes n) = leb m n
le_size (bytes m) (text t) = true
le_size (text s) (bytes n) = false
le_size (text s) (text t) = le_text s t

pub record Memory : Type 0 where
  pub b : ℕ
  pub u : ℕ
  pub cs : ℕ
  pub name : Word
  pub size : Size

-- The attributes of a test; what `init_params` sets is not set before.
pub record Test : Type 0 where
  pub class_name : Word
  pub uuid_test : Word
  pub logfile_prefix : Word
  pub last_comment : Word
  pub iteration_index : ℕ
  pub num_errors : ℤ
  pub bool_params_init : Bool
  pub bool_interrupt_batch : Bool
  pub plugin_name : Word
  pub bus_port_parameters_flasher : Word
  pub test_binary_size : Option Size
  pub flasher_binary : Word
  pub path_lua_files : Word
  pub command_structure : List Command
  pub command_strings : List Word

unfoldable pub set_last_comment : (Word → Word) → Word → Test → Test
set_last_comment slugify value t = record t { last_comment = slugify value }

unfoldable pub get_last_comment_rease : Test → Word × Test
get_last_comment_rease t = (t.last_comment, record t { last_comment = [] })

unfoldable pub get_iteration_index_inc : Test → ℕ × Test
get_iteration_index_inc t =
    (t.iteration_index, record t { iteration_index = suc t.iteration_index })

unfoldable pub init_params_global : Word → Word → Word → Test → Test
init_params_global plugin path_lua_files flasher_binary t = record t {
  plugin_name = codes "-p " ++ plugin;
  flasher_binary = flasher_binary;
  path_lua_files = path_lua_files;
  bool_params_init = true;
}

-- The size of the test data is at most the size of the memory.
unfoldable pub smaller : Size → Size → Size
unfolding le_size
smaller test_binary_size size = if le_size test_binary_size size then test_binary_size else size

unfoldable pub init_params : Word → Memory → Size → Word → Word → Test → Test
unfolding smaller init_params_global
init_params plugin memory test_binary_size path_lua_files flasher_binary t =
    init_params_global plugin path_lua_files flasher_binary (record t {
      bus_port_parameters_flasher =
          codes "-b "
          ++ decimal memory.b
          ++ codes " -u "
          ++ decimal memory.u
          ++ codes " -cs "
          ++ decimal memory.cs;
      test_binary_size = some (smaller test_binary_size memory.size);
    })

with_commands : Test → Option (List Command × List Word) → Option Test
with_commands t none = none
with_commands t (some (structure, strings)) =
    some
      (record t { command_structure = structure; command_strings = t.command_strings ++ strings })

-- The commands are appended to those of the test.
unfoldable pub convert_commands : Test → Option Test
unfolding with_commands convert_final_command_entries_to_commands
convert_commands t = with_commands t (
    convert_final_command_entries_to_commands t.flasher_binary t.path_lua_files t.command_structure)
