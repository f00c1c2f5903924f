-- ===== src/Install/Check.antt =====
-- jonchki/jonchkihere.py, `__check_jonchki_version`.
use org_muhkuh_tools_flasher.Common.{
  Bool, false, Option, none, some, List, [], ◌∷◌, ◌++◌, if◌then◌else◌,
}
use org_muhkuh_tools_flasher.Common.Words.{Word, codes, eq_word, strip}
use org_muhkuh_tools_flasher.Install.Version.{match_version}
use org_muhkuh_tools_flasher.Install.System.{
  System, Output, output, called_process_error, other_exception,
}
use org_muhkuh_tools_flasher.Common.Io.{Io, ◌>>=◌, return, or_else, modify, gets}

-- `astrCmd`
abbrev pub command_line : Option Word → Word → List Word
command_line none tool = tool ∷ codes "--version" ∷ []
command_line (some lua) tool = lua ∷ tool ∷ codes "--version" ∷ []

-- The command of the tool, for the CMD file.
abbrev pub command : Option Word → Word → Word
command none tool = tool
command (some lua) tool = lua ++ codes " " ++ tool

-- Whether it is the version that is asked for.
abbrev pub is_version : Word → Option Word → Bool
is_version version none = false
is_version version (some found) = eq_word version found

abbrev pub reports : Word → Word → Bool
reports version text = is_version version (match_version text)

module _ {W : Type 0} (os : System W) where
  -- The stripped output of the tool, or the empty text.
  unfoldable pub output_text : Output × W → Option Word × W
  unfolding strip
  output_text (output text, w) = (some (strip text), w)
  output_text (called_process_error, w) = (some [], w)
  output_text (other_exception, w) = (none, w)

  unfoldable pub read_output : Option Word → Word → Io W Word
  unfolding output_text
  read_output lua tool w = output_text (os.check_output (command_line lua tool) w)

  -- `if strCmdFile is not None`
  unfoldable pub write_command : Option Word → Word → Io W Unit
  write_command none cmd = return tt
  write_command (some file) cmd = modify (os.write_file file (cmd ++ codes "\n"))

  -- The tool at a path that exists.
  unfoldable pub check_tool : Option Word → Word → Word → Option Word → Io W (Option Word)
  unfolding read_output write_command
  check_tool lua tool version cmd_file = do
    is_file ← gets (os.is_file tool)
    if is_file
        then (do
          text ← read_output lua tool
          if reports version text
              then (do
                _ ← write_command cmd_file (command lua tool)
                return (some (command lua tool)))
              else return none)
        else return none

  -- The command if the tool was found, in place of the pair of a flag and a command.
  unfoldable pub check_jonchki_version :
      Option Word → Word → Word → Word → Option Word → Io W (Option Word)
  unfolding check_tool or_else
  check_jonchki_version lua path tool version cmd_file = do
    is_dir ← gets (os.is_dir path)
    if is_dir
        then (do
          found ← check_tool lua tool version cmd_file
          or_else found (do _ ← modify (os.rmtree path); return none))
        else return none
