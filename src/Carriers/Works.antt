-- ===== src/Carriers/Works.antt =====
-- A system whose operations succeed.
use org_muhkuh_tools_flasher.Common.{◌≡◌, Option, none, some}
use org_muhkuh_tools_flasher.Common.Io.{Yields}
use org_muhkuh_tools_flasher.Common.Words.{Word}
use org_muhkuh_tools_flasher.Batch.{ReturnValue, unset, exit_code, signal}
use org_muhkuh_tools_flasher.Carriers.System.{
  CommandSystem, Stream, no_stream, console, log, pipe, Finished,
}

abbrev pub Any : {A : Type 0} → A → Type 0
Any a = Unit

-- A process that ended has a return value.
abbrev pub HasCode : ReturnValue → Type 0
HasCode unset = ⊥
HasCode (exit_code n) = Unit
HasCode (signal n) = Unit

-- A handle that can be written.
abbrev pub IsOpen : Stream → Type 0
IsOpen no_stream = ⊥
IsOpen pipe = ⊥
IsOpen console = Unit
IsOpen (log handle) = Unit

abbrev pub CanFinish : Option Word → Stream → Type 0
CanFinish none s = Unit
CanFinish (some path) s = IsOpen s

-- Each operation succeeds from every state; every path can be entered, and every output is a text.
pub record Works {R T : Type 0} (sys : CommandSystem R T) : Type 0 where
  pub enters : (here path : Word) (r : R) → (there : Word) × (sys.chdir here path r ≡ some there)
  pub opens : (here path : Word) → Yields IsOpen (sys.open_file here path)
  pub writes : (s : Stream) (w : Word) → Yields Any (sys.write s w)
  pub closes : (s : Stream) → Yields Any (sys.close s)
  pub runs :
      (here cmd : Word) (out err : Stream)
      → Yields (λ (f : Finished). HasCode f.returncode) (sys.popen here cmd out err)
  pub dates : Yields Any sys.date
  pub times : Yields Any sys.time
  pub decodes : (w : Word) → (u : Word) × (sys.decode w ≡ some u)
