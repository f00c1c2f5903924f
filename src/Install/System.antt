-- ===== src/Install/System.antt =====
-- What `install` uses of its surroundings: the operations on the files, the processes and the network,
-- on a state of any type. A step of the program changes the state, and may raise an exception.
use org_muhkuh_tools_flasher.Common.{ℕ, Bool, Option, List}
use org_muhkuh_tools_flasher.Common.Words.{Word}
use org_muhkuh_tools_flasher.Platform.{Host}
use org_muhkuh_tools_flasher.Download.{Bytes, Write, Response}

-- `subprocess.check_output`: an output, a `CalledProcessError`, or another exception.
pub data Output : Type 0 where
  output : Word → Output
  called_process_error : Output
  other_exception : Output

pub record System (W : Type 0) : Type 0 where
  pub is_dir : Word → W → Bool
  pub is_file : Word → W → Bool
  pub exists : Word → W → Bool
  pub check_output : List Word → W → Output × W
  pub write_file : Word → Word → W → W
  pub read_file : Word → W → Bytes
  pub rmtree : Word → W → W
  -- The network, what each write to the temporary file of a download does, and the number of reads after
  -- which a download that goes on is given up here: the program would wait.
  pub urlopen : Word → W → Response
  pub writes : Word → W → ℕ → Write
  pub patience : ℕ
  -- The names in an archive of a format, if it can be opened, and the extraction of some of them.
  pub members : Word → Bytes → Option (List Word)
  pub unpack : Word → Bytes → List Word → W → W
  pub environ : Word → Option Word
  pub clock : ℕ → ℕ
  pub host : Host
  pub cwd : Word
