-- ===== src/Dyntest/Run.antt =====
-- `run_batch_commands`, `archive_logs` and `run_test`: the batch of a test runs on the disk of the manager
-- of the log files; its summary counts the errors.
pub mod Errors
use org_muhkuh_tools_flasher.Common.{
  ℕ, zero, suc, Bool, true, false, Option, none, some, List, [], ◌∷◌, ◌++◌, length, ltb,
  if◌then◌else◌,
}
use org_muhkuh_tools_flasher.Common.Io.{Io, ◌>>=◌, ◌>>◌, return, raise, gets, modify, from_option}
use org_muhkuh_tools_flasher.Common.Words.{Word, codes, join_words}
use org_muhkuh_tools_flasher.Common.Paths.{join, slash}
use org_muhkuh_tools_flasher.Common.Decimals.{decimal}
use org_muhkuh_tools_flasher.Common.Integers.{ℤ, pos, negsuc, ◌+ℤ◌}
use mathlib.Core.List.{reverse}
use org_muhkuh_tools_flasher.Files.{Place, Disk}
use org_muhkuh_tools_flasher.Logfiles.{
  State, Result, Formats, Call, temporary, wrap_archive_logs_and_clear,
}
use org_muhkuh_tools_flasher.Batch.{unset, Entry, other, SummaryFiles, eval_batch_result}
use org_muhkuh_tools_flasher.Carriers.System.{World, CommandSystem, Stream, no_stream, on_rest}
use org_muhkuh_tools_flasher.Carriers.{Carrier, batch_command_base}
use org_muhkuh_tools_flasher.Dyntest.Summary.{text_of, entries_of}
use org_muhkuh_tools_flasher.Dyntest.{
  Test, set_last_comment, get_last_comment_rease, get_iteration_index_inc, convert_commands,
}

-- The disk with the working directory, the index of the manager, and the list of results that all tests share.
pub record Bench (B : Type 0) : Type 0 where
  pub world : World (Disk B)
  pub unique_log_index : ℕ
  pub num_errors_a : List Result

-- What the names of an archive take from outside.
pub record Stamp : Type 0 where
  pub stripped_uuid : Word
  pub time_stamp : Word
  pub platform : Word
  pub machine : Word

module _ {B : Type 0} where
  abbrev pub on_world : {A : Type 0} → Io (World (Disk B)) A → Io (Bench B) A
  on_world m w = ((m w.world).0, record w { world = (m w.world).1 })

  abbrev logs_of : Bench B → State B
  logs_of w = record { disk = w.world.rest; unique_log_index = w.unique_log_index }

  abbrev with_logs : State B → Bench B → Bench B
  with_logs s w = record w {
    world = record (w.world) { rest = s.disk };
    unique_log_index = s.unique_log_index;
  }

  abbrev pub on_logs : {A : Type 0} → Io (State B) A → Io (Bench B) A
  on_logs m w = ((m (logs_of w)).0, with_logs (m (logs_of w)).1 w)

  module _ {T : Type 0} (sys : CommandSystem (Disk B) T) (formats : Formats B) where
    -- The carrier that all commands of the batch are copies of.
    abbrev pub default_carrier : Carrier T
    default_carrier = record {
      id = none;
      time_start = none;
      time_end = none;
      time_execute = none;
      cmd = [];
      executed = false;
      change_dir_to_bin = true;
      ret_val = unset;
      str_stdout = [];
      str_stderr = [];
      direct_out = false;
      direct_err = false;
      path_stdout = none;
      path_stderr = none;
      stream_stdout = no_stream;
      stream_stderr = no_stream;
    }

    -- The file of the summary, on the disk.
    abbrev pub summary_files : SummaryFiles (World (Disk B)) Stream
    summary_files = record {
      is_dir = λ path w. sys.is_dir w.cwd path w.rest;
      open_file = λ path w. on_rest (sys.open_file w.cwd path) w;
      write = λ handle text. on_rest (sys.write handle text);
      close = λ handle. on_rest (sys.close handle);
    }

    -- The entries of a batch that was run.
    entries_if : Option (List (Carrier T)) → Option (List Entry)
    unfolding entries_of
    entries_if none = none
    entries_if (some carriers) = some (entries_of sys.float_text carriers)

    info_of : Test → Word
    info_of t = t.uuid_test ++ b' ' ∷ t.class_name

    -- The errors of a batch.
    batch_errors : Word → Test → Io (World (Disk B)) ℤ
    unfolding batch_command_base eval_batch_result entries_if info_of ◌>>=◌
    batch_errors path t = do
      carriers ← batch_command_base sys default_carrier t.command_strings path t.uuid_test
      eval_batch_result summary_files (some path) t.logfile_prefix (other (info_of t))
          (entries_if carriers)

    abbrev pub result_of : Test → Result
    result_of t = record {
      err = t.num_errors;
      name = t.class_name;
      num_test = length t.command_strings;
    }

    abbrev pub add_errors : Test → ℤ → Test
    add_errors t n = record t { num_errors = t.num_errors +ℤ n }

    abbrev pub append_result : Test → Bench B → Bench B
    append_result t w = record w { num_errors_a = w.num_errors_a ++ result_of t ∷ [] }

    unfoldable pub run_batch_commands : Place → Test → Io (Bench B) Test
    unfolding batch_errors text_of ◌>>=◌ ◌+ℤ◌
    run_batch_commands root t = do
      n ← on_world (batch_errors (text_of (temporary root)) t)
      modify (append_result (add_errors t n))
      return (add_errors t n)

    abbrev pub call_of : Stamp → Test → List Result → Call
    call_of stamp t results = record {
      uuid = some t.uuid_test;
      stripped_uuid = stamp.stripped_uuid;
      time_stamp = stamp.time_stamp;
      platform = stamp.platform;
      machine = stamp.machine;
      test_name = t.class_name;
      upper_index = t.iteration_index;
      comment = t.last_comment;
      result = some results;
    }

    abbrev pub next_iteration : Test → Test
    next_iteration t = (get_last_comment_rease (get_iteration_index_inc t).1).1

    unfoldable pub archive_logs : Place → Stamp → Test → Io (Bench B) Test
    unfolding wrap_archive_logs_and_clear ◌>>=◌ get_last_comment_rease get_iteration_index_inc
    archive_logs root stamp t = do
      results ← gets (λ w. w.num_errors_a)
      on_logs (wrap_archive_logs_and_clear formats root (call_of stamp t results))
      return (next_iteration t)

    -- `run_test`, with `pre_test_step` and `init_command_array` of the class of the test.
    unfoldable pub run_test :
        (Test → Io (Bench B) Test)
        → (Test → Io (Bench B) Test)
        → Place
        → Stamp
        → Test
        → Io (Bench B) Test
    unfolding convert_commands run_batch_commands archive_logs ◌>>=◌
    run_test pre_test_step init_command_array root stamp t w =
        if t.bool_params_init
        then (do
          prepared ← pre_test_step t
          structured ← init_command_array prepared
          converted ← from_option (convert_commands structured)
          done ← run_batch_commands root converted
          archive_logs root stamp done)
            w
        else (none, w)
