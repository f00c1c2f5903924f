-- ===== src/Carriers/System.antt =====
-- What the commands need of the system.
use org_muhkuh_tools_flasher.Common.{Bool, Option}
use org_muhkuh_tools_flasher.Common.Io.{Io}
use org_muhkuh_tools_flasher.Common.Words.{Word}
use org_muhkuh_tools_flasher.Batch.{ReturnValue}

-- `None`, `sys.stdout`, an open file, or `subprocess.PIPE`.
pub data Stream : Type 0 where
  no_stream : Stream
  console : Stream
  log : Word → Stream
  pipe : Stream

-- What `communicate` returns, and the return code.
pub record Finished : Type 0 where
  pub stdout : Option Word
  pub stderr : Option Word
  pub returncode : ReturnValue

-- The working directory of the script is its own: no other process changes it.
pub record World (R : Type 0) : Type 0 where
  pub cwd : Word
  pub rest : R

-- The operations, on a state of any type, and the times. A relative path starts at the working directory,
-- which is the first argument.
pub record CommandSystem (R T : Type 0) : Type 0 where
  pub is_dir : Word → Word → R → Bool
  pub chdir : Word → Word → R → Option Word
  pub realpath : Word → Word → Word
  pub open_file : Word → Word → Io R Stream
  pub write : Stream → Word → Io R Unit
  pub close : Stream → Io R Unit
  pub popen : Word → Word → Stream → Stream → Io R Finished
  pub date : Io R Word
  pub time : Io R T
  pub minus : T → T → T
  pub float_text : T → Word
  pub decode : Word → Option Word

-- A step that is not one of the working directory.
abbrev pub on_rest : {R A : Type 0} → Io R A → Io (World R) A
on_rest m w = ((m w.rest).0, record w { rest = (m w.rest).1 })
