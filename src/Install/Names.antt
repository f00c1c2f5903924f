-- ===== src/Install/Names.antt =====
-- jonchki/jonchkihere.py: the names and texts that `install` makes of its arguments.
use org_muhkuh_tools_flasher.Common.{Option, none, some, [], ◌∷◌, ◌++◌, if◌then◌else◌}
use org_muhkuh_tools_flasher.Common.Words.{Word, codes}
use org_muhkuh_tools_flasher.Common.Paths.{join}
use org_muhkuh_tools_flasher.Platform.{Platform, option_is}
use org_muhkuh_tools_flasher.Download.{Bytes}
use org_muhkuh_tools_flasher.Install.Format.{Replacements}

-- The arguments of `install`; the logging is left out.
pub record Settings : Type 0 where
  pub jonchki_version : Word
  pub output_folder : Word
  pub local_archives : Option Word
  pub lua_interpreter : Word

-- The names that `install` makes of the version, for the full tool and for the light one.
pub record Names : Type 0 where
  pub version : Word
  pub cmd_file : Word
  pub path : Word
  pub tool : Word
  pub light_path : Word
  pub light_tool : Word

-- Which of the two versions an archive holds.
pub data Kind : Type 0 where
  full : Kind
  light : Kind

-- `if name in os.environ and len(os.environ[name]) > 0`
abbrev pub overwritten : Option Word → Word → Word
overwritten none default = default
overwritten (some []) default = default
overwritten (some (c ∷ w)) default = c ∷ w

unfoldable pub names_of : Platform → Word → Word → Names
names_of platform folder version =
    let path = join folder (codes "jonchki-" ++ version) in
    let light_path = join folder (codes "jonchki-light-" ++ version) in
    record {
      version = version;
      cmd_file = join folder (codes ".jonchki.cmd");
      path = path;
      tool = join path (
          if option_is platform.distribution_id (codes "windows")
          then codes "jonchki.bat"
          else codes "jonchki");
      light_path = light_path;
      light_tool = join light_path (codes "jonchki.lua");
    }

-- `astrReplace`
abbrev pub replacements : Platform → Word → Replacements
replacements platform version =
    (codes "HOST_CPU_ARCHITECTURE", platform.cpu_architecture)
    ∷ (codes "HOST_DISTRIBUTION_ID", platform.distribution_id)
    ∷ (codes "HOST_DISTRIBUTION_VERSION", platform.distribution_version)
    ∷ (codes "JONCHKI_VERSION", some version)
    ∷ (codes "ARCHIVE_EXTENSION", some platform.archive_format)
    ∷ []

abbrev pub local_template : Word
local_template =
    codes "jonchki-{JONCHKI_VERSION}-{HOST_DISTRIBUTION_ID}"
    ++ codes "{HOST_DISTRIBUTION_VERSION}_{HOST_CPU_ARCHITECTURE}.{ARCHIVE_EXTENSION}"

abbrev pub light_template : Word
light_template = codes "jonchki-light-{JONCHKI_VERSION}.zip"

abbrev pub url_template : Word
url_template =
    codes "https://github.com/muhkuh-sys/org.muhkuh.lua-jonchki/releases/download/"
    ++ codes "v{JONCHKI_VERSION}/jonchki-{JONCHKI_VERSION}-"
    ++ codes "{HOST_DISTRIBUTION_ID}{HOST_DISTRIBUTION_VERSION}_"
    ++ codes "{HOST_CPU_ARCHITECTURE}.{ARCHIVE_EXTENSION}"

abbrev pub light_url_template : Word
light_url_template =
    codes "https://github.com/muhkuh-sys/org.muhkuh.lua-jonchki/releases/download/"
    ++ codes "v{JONCHKI_VERSION}/jonchki-light-{JONCHKI_VERSION}.zip"

-- An archive that was found: its data, the version that it holds, and its format.
abbrev pub Found : Type 0
Found = Bytes × Kind × Word

-- The four formatted texts.
pub record Files : Type 0 where
  pub local_file : Word
  pub url : Word
  pub light_local_file : Word
  pub light_url : Word
