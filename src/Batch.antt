-- ===== src/Batch.antt =====
-- regression/common/simpelTools/src/command_carrier.py, `eval_batch_result`: the summary of a batch, which
-- is written to a file while the commands that failed are counted. The file operations are a parameter.
pub mod Lines
pub mod Laws
mod Tests
use org_muhkuh_tools_flasher.Common.{
  ℕ, zero, suc, Bool, true, false, Option, none, some, List, [], ◌∷◌, ◌++◌, ltb, if◌then◌else◌,
}
use org_muhkuh_tools_flasher.Common.Io.{Io, ◌>>=◌, ◌>>◌, return, raise, from_option}
use org_muhkuh_tools_flasher.Common.Words.{Word, codes}
use org_muhkuh_tools_flasher.Common.Paths.{join}
use org_muhkuh_tools_flasher.Common.Integers.{ℤ, pos, negsuc}

-- `ret_val`: not set, or the return code of the process, or a signal n that ended it, as -n.
pub data ReturnValue : Type 0 where
  unset : ReturnValue
  exit_code : ℕ → ReturnValue
  signal : ℕ → ReturnValue

-- A command carrier, with the line that is printed for it; a time that is not set cannot be printed.
pub record Entry : Type 0 where
  pub ret_val : ReturnValue
  pub line : Option Word

-- `additional_info`: a unicode text, or another value as the text that `%s` makes of it.
pub data Info : Type 0 where
  unicode : Word → Info
  other : Word → Info

-- What is done with the summary file, on a state of any type; each step may raise.
pub record SummaryFiles (W H : Type 0) : Type 0 where
  pub is_dir : Word → W → Bool
  pub open_file : Word → Io W H
  pub write : H → Word → Io W Unit
  pub close : H → Io W Unit

-- `if entry.ret_val`
abbrev pub is_failed : ReturnValue → Bool
is_failed unset = false
is_failed (exit_code zero) = false
is_failed (exit_code (suc n)) = true
is_failed (signal n) = true

-- The variable `line` after the loop.
unfoldable pub last_line : List Entry → Option Word
last_line [] = none
last_line (entry ∷ []) = entry.line
last_line (entry ∷ (next ∷ array)) = last_line (next ∷ array)

-- The text for the additional info: for a unicode text it is the last line of the loop.
unfoldable pub info_line : Info → List Entry → Option Word
unfolding last_line
info_line (unicode w) array = last_line array
info_line (other w) array = some w

-- A text that the ASCII codec takes.
abbrev pub is_ascii : Word → Bool
is_ascii [] = true
is_ascii (c ∷ w) = if ltb c 128 then is_ascii w else false

module _ {W H : Type 0} (files : SummaryFiles W H) where
  -- A text is encoded, or written as unicode to the byte file: both raise outside of ASCII.
  unfoldable pub write_line : H → Word → Io W Unit
  write_line handle text w =
      if is_ascii text then files.write handle (text ++ b'\n' ∷ []) w else (none, w)

  -- The loop, with the count.
  unfoldable pub write_entries : H → List Entry → ℕ → Io W ℕ
  unfolding write_line ◌>>=◌
  write_entries handle [] count = return count
  write_entries handle (entry ∷ array) count = do
    line ← from_option entry.line
    write_line handle line
    write_entries handle array (if is_failed entry.ret_val then suc count else count)

  unfoldable pub write_summary : H → Info → List Entry → Io W ℤ
  unfolding write_entries info_line ◌>>=◌
  write_summary handle info array = do
    count ← write_entries handle array 0
    text ← from_option (info_line info array)
    write_line handle text
    files.close handle
    return (pos count)

  -- `path_logfile` is not set or empty, or a path. Without a file the last `write` is one on `None`. The
  -- carriers may also be the number of a batch without a folder, over which the loop raises: here none.
  unfoldable pub eval_batch_result : Option Word → Word → Info → Option (List Entry) → Io W ℤ
  unfolding write_summary join ◌>>=◌
  eval_batch_result none prefix info carriers w = raise w
  eval_batch_result (some []) prefix info carriers w = raise w
  eval_batch_result (some (c ∷ path)) prefix info carriers w =
      if files.is_dir (c ∷ path) w
      then (do
        handle ← files.open_file (join (c ∷ path) (prefix ++ codes "_00_summary"))
        array ← from_option carriers
        write_summary handle info array)
          w
      else (some (negsuc 0), w)
