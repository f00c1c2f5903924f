-- ===== src/Carriers.antt =====
-- regression/common/simpelTools/src/command_carrier.py: a command with its outputs, `runCommandBase`,
-- which runs it, and `batch_command_base`, which runs a list of commands. With strip_command_arguments of
-- simpelTools/src/magic_strings.py. What the code calls on the system is a parameter: the processes, the
-- log files and the clock are a state of any type, the working directory is a part of the world.
pub mod System
pub mod Texts
pub mod Runs
pub mod Batches
pub mod Works
pub mod Execution
pub mod Returns
pub mod Example
mod Tests
use org_muhkuh_tools_flasher.Common.{
  ℕ, zero, suc, Bool, true, false, not, Option, none, some, List, [], ◌∷◌, ◌++◌, if◌then◌else◌,
}
use org_muhkuh_tools_flasher.Common.Io.{Io, ◌>>=◌, ◌>>◌, return, raise, gets, from_option}
use org_muhkuh_tools_flasher.Common.Words.{Word, codes}
use org_muhkuh_tools_flasher.Common.Paths.{join}
use org_muhkuh_tools_flasher.Common.Decimals.{decimal}
use org_muhkuh_tools_flasher.Batch.{ReturnValue, unset}
use org_muhkuh_tools_flasher.Carriers.System.{
  Stream, no_stream, console, log, pipe, Finished, World, CommandSystem, on_rest,
}
use org_muhkuh_tools_flasher.Carriers.Texts.{split_blanks, directory_name, text_of_code}

-- `command_carrier`; a time is not set before the command ran.
pub record Carrier (T : Type 0) : Type 0 where
  pub id : Option ℕ
  pub time_start : Option T
  pub time_end : Option T
  pub time_execute : Option T
  pub cmd : Word
  pub executed : Bool
  pub change_dir_to_bin : Bool
  pub ret_val : ReturnValue
  pub str_stdout : Word
  pub str_stderr : Word
  pub direct_out : Bool
  pub direct_err : Bool
  pub path_stdout : Option Word
  pub path_stderr : Option Word
  pub stream_stdout : Stream
  pub stream_stderr : Stream

-- A process that has ended.
pub record Process (T : Type 0) : Type 0 where
  pub stream_stdout : Stream
  pub stream_stderr : Stream
  pub start : T
  pub stop : T
  pub finished : Finished

-- A path that is set and not empty.
abbrev pub path_set : Option Word → Option Word
path_set none = none
path_set (some []) = none
path_set (some (c ∷ w)) = some (c ∷ w)

-- The output that was captured, if there is any.
abbrev pub captured : Option Word → Option Word
captured none = none
captured (some []) = none
captured (some (c ∷ w)) = some (c ∷ w)

module _ {R T : Type 0} (sys : CommandSystem R T) where
  unfoldable pub gen_header : Word → Word → Word → Word
  gen_header date form cmd =
      date
      ++ codes "\n[pirate][file]["
      ++ form
      ++ codes "][cmd]: "
      ++ cmd
      ++ codes "\n\n---BEGIN LOG---\n"

  unfoldable pub gen_footer : Word → Word → Word → T → Word → Word
  gen_footer date form cmd time code =
      codes "---END LOG---\n\n"
      ++ date
      ++ codes "\n[pirate][file]["
      ++ form
      ++ codes "][cmd]: "
      ++ cmd
      ++ codes "\nReal runtime: "
      ++ sys.float_text time
      ++ codes "s\nReturn value: "
      ++ code

  -- A log file is opened and gets its header.
  unfoldable pub open_log : Word → Word → Word → Word → Io R Stream
  unfolding gen_header ◌>>=◌
  open_log cwd path form cmd = do
    handle ← sys.open_file cwd path
    date ← sys.date
    sys.write handle (gen_header date form cmd)
    return handle

  -- The stream for the output of the process: the console, a log file, or a pipe.
  select_stdout : Word → Bool → Option Word → Word → Io R Stream
  unfolding open_log
  select_stdout cwd true path cmd = return console
  select_stdout cwd false none cmd = return pipe
  select_stdout cwd false (some path) cmd =
      open_log cwd (sys.realpath cwd path) (codes "stdout") cmd

  -- The streams for the errors and the output: a direct error sets that of the output.
  select_stderr : Word → Bool → Option Word → Word → Stream × Stream → Io R (Stream × Stream)
  unfolding open_log ◌>>=◌
  select_stderr cwd true path cmd (out, err) = return (console, err)
  select_stderr cwd false none cmd (out, err) = return (out, pipe)
  select_stderr cwd false (some path) cmd (out, err) = do
    handle ← open_log cwd path (codes "stderr") cmd
    return (out, handle)

  -- The footer of a log file, and its end. The stream may be another one than that of the path; a write to
  -- none raises.
  finish_log : Option Word → Stream → Word → Word → T → ReturnValue → Io R Unit
  unfolding gen_footer ◌>>=◌
  finish_log none _ form cmd time code = return tt
  finish_log (some path) no_stream form cmd time code = raise
  finish_log (some path) pipe form cmd time code = raise
  finish_log (some path) console form cmd time code = do
    date ← sys.date
    text ← from_option (text_of_code code)
    sys.write console (gen_footer date form cmd time text)
    sys.close console
  finish_log (some path) (log handle) form cmd time code = do
    date ← sys.date
    text ← from_option (text_of_code code)
    sys.write (log handle) (gen_footer date form cmd time text)
    sys.close (log handle)

  decode : Word → Option Word → Io R Word
  decode old none = return old
  decode old (some output) = from_option (sys.decode output)

  -- The streams are opened, and the process runs to its end.
  start_process : Word → Carrier T → Io R (Process T)
  unfolding select_stdout select_stderr ◌>>=◌
  start_process cwd carrier = do
    out ← select_stdout cwd carrier.direct_out (path_set carrier.path_stdout) carrier.cmd
    streams ←
        select_stderr cwd carrier.direct_err (path_set carrier.path_stderr) carrier.cmd
          (out, carrier.stream_stderr)
    start ← sys.time
    finished ← sys.popen cwd carrier.cmd streams.0 streams.1
    stop ← sys.time
    return (record {
      stream_stdout = streams.0;
      stream_stderr = streams.1;
      start = start;
      stop = stop;
      finished = finished;
    })

  -- The log files get their footers, that of the errors first.
  finish_logs : Carrier T → Process T → Io R Unit
  unfolding finish_log ◌>>=◌
  finish_logs carrier process = do
    finish_log (path_set carrier.path_stderr) process.stream_stderr (codes "stderr") carrier.cmd
        (sys.minus process.stop process.start) process.finished.returncode
    finish_log (path_set carrier.path_stdout) process.stream_stdout (codes "stdout") carrier.cmd
        (sys.minus process.stop process.start) process.finished.returncode

  decode_outputs : Carrier T → Process T → Io R (Word × Word)
  unfolding decode ◌>>=◌
  decode_outputs carrier process = do
    str_out ← decode carrier.str_stdout (captured process.finished.stdout)
    str_err ← decode carrier.str_stderr (captured process.finished.stderr)
    return (str_out, str_err)

  -- The carrier after the run.
  completed : Carrier T → Process T → Word × Word → Carrier T
  completed carrier process outputs = record carrier {
    time_start = some process.start;
    time_end = some process.stop;
    time_execute = some (sys.minus process.stop process.start);
    executed = true;
    ret_val = process.finished.returncode;
    str_stdout = outputs.0;
    str_stderr = outputs.1;
    stream_stdout = process.stream_stdout;
    stream_stderr = process.stream_stderr;
  }

  run_process : Word → Carrier T → Io R (Process T × Word × Word)
  unfolding start_process finish_logs decode_outputs ◌>>=◌
  run_process cwd carrier = do
    process ← start_process cwd carrier
    finish_logs carrier process
    outputs ← decode_outputs carrier process
    return (process, outputs.0, outputs.1)

  -- What is done in the working directory of the command.
  unfoldable pub execute : Word → Carrier T → Io R (Carrier T)
  unfolding run_process completed ◌>>=◌
  execute cwd carrier = run_process cwd carrier >>= λ r. return (completed carrier r.0 (r.1, r.2))

  entered : Option Word → Io (World R) Unit
  entered none w = (none, w)
  entered (some cwd) w = (some tt, record w { cwd = cwd })

  -- `os.chdir`
  chdir : Word → Io (World R) Unit
  unfolding entered
  chdir path w = entered (sys.chdir w.cwd path w.rest) w

  -- A command without a word has no folder.
  abbrev pub first_word : List Word → Option Word
  first_word [] = none
  first_word (w ∷ ws) = some w

  enter_folder : Bool → Word → Io (World R) Unit
  unfolding chdir split_blanks directory_name ◌>>=◌
  enter_folder false cmd = return tt
  enter_folder true cmd = do
    binary ← from_option (first_word (split_blanks cmd))
    chdir (directory_name binary)

  leave_folder : Bool → Word → Io (World R) Unit
  unfolding chdir
  leave_folder false old = return tt
  leave_folder true old = chdir old

  run_in : Carrier T → Io (World R) (Carrier T)
  unfolding execute
  run_in carrier w = on_rest (execute w.cwd carrier) w

  -- The run, and the way back to the old folder.
  run_and_leave : Word → Carrier T → Io (World R) (Carrier T)
  unfolding run_in leave_folder ◌>>=◌
  run_and_leave old carrier = do
    done ← run_in carrier
    leave_folder carrier.change_dir_to_bin old
    return done

  -- `runCommandBase`; the carrier is returned as the run leaves it.
  unfoldable pub run_command_base : Carrier T → Io (World R) (Carrier T)
  unfolding enter_folder run_and_leave ◌>>=◌
  run_command_base carrier w =
      (do enter_folder carrier.change_dir_to_bin carrier.cmd; run_and_leave w.cwd carrier) w

  log_path : Word → Word → ℕ → Word → Word
  unfolding join decimal
  log_path path_logfile prefix idx ending =
      join path_logfile (prefix ++ b'_' ∷ (decimal idx ++ ending))

  -- The carrier for one command of the batch.
  unfoldable pub numbered : Carrier T → Word → Word → ℕ → Word → Carrier T
  unfolding log_path
  numbered default path_logfile prefix idx cmd = record default {
    cmd = cmd;
    id = some idx;
    path_stdout = some (log_path path_logfile prefix idx (codes "_stdout.txt"));
    path_stderr = some (log_path path_logfile prefix idx (codes "_stderr.txt"));
  }

  unfoldable pub run_all : Carrier T → Word → Word → ℕ → List Word → Io (World R) (List (Carrier T))
  unfolding numbered run_command_base ◌>>=◌
  run_all default path_logfile prefix idx [] = return []
  run_all default path_logfile prefix idx (cmd ∷ cmds) = do
    carrier ← run_command_base (numbered default path_logfile prefix idx cmd)
    result ← run_all default path_logfile prefix (suc idx) cmds
    return (carrier ∷ result)

  -- Without the folder of the log files no command is run, and the result is 42: here nothing.
  unfoldable pub batch_command_base :
      Carrier T → List Word → Word → Word → Io (World R) (Option (List (Carrier T)))
  unfolding run_all ◌>>=◌
  batch_command_base default array_command path_logfile logfile_prefix w =
      if sys.is_dir w.cwd path_logfile w.rest
      then (do
        result ← run_all default path_logfile logfile_prefix 0 array_command
        return (some result))
          w
      else (some none, w)
