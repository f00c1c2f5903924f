-- ===== src/Install/Tests.antt =====
-- An installation on a Windows host, with an archive that is downloaded. The state counts what was
-- done: the archive is unpacked at 1, the CMD file is written at 2.
use org_muhkuh_tools_flasher.Common.{
  ℕ, ◌≡◌, ◌⊎◌, refl, true, false, none, some, [], ◌∷◌, ◌==◌, not, if◌then◌else◌,
}
use org_muhkuh_tools_flasher.Common.Words.{Word, codes, eq_word, after_prefix, join_words, split}
use org_muhkuh_tools_flasher.Common.Paths.{join, relpath, abspath}
use org_muhkuh_tools_flasher.Progress.{start, update, fresh, print_line}
use org_muhkuh_tools_flasher.Archive.{extract_zip, first_invalid, leaves}
use org_muhkuh_tools_flasher.Platform.{Host, Platform, detect_here, windows_platform}
use org_muhkuh_tools_flasher.Download.{number, opened, Read, received, whole}
use org_muhkuh_tools_flasher.Install.Version.{match_version}
use org_muhkuh_tools_flasher.Install.System.{System, output}
use org_muhkuh_tools_flasher.Common.Io.{◌>>=◌}
use org_muhkuh_tools_flasher.Install.Check.{check_jonchki_version}
use org_muhkuh_tools_flasher.Install.Steps.{install}
use org_muhkuh_tools_flasher.Install.Names.{Settings, names_of, overwritten}
use org_muhkuh_tools_flasher.Install.Laws.{IsFound, install-IsFound}
use org_muhkuh_tools_flasher.Install.Checked.{check_jonchki_version-removes}

abbrev host : Host
host = record {
  system = codes "Windows";
  processor_architecture = some (codes "AMD64");
  processor_architew6432 = none;
  getconf_long_bit = none;
  lscpu = none;
  lsb_release = none;
}

abbrev folder : Word
folder = codes "/o/jonchki-1.2.3.4"

abbrev one_byte : ℕ → Read
one_byte n = if n == 0 then received (7 ∷ []) else received []

abbrev os : System ℕ
os = record {
  is_dir = λ path state. if eq_word path folder then not (state == 0) else false;
  is_file = λ path state. true;
  exists = λ path state. false;
  check_output = λ command state. (output (codes "jonchki V1.2.3.4 x"), state);
  write_file = λ path text state. 2;
  read_file = λ path state. [];
  rmtree = λ path state. 0;
  urlopen = λ url state. opened (number 1) one_byte;
  writes = λ url state k. whole;
  patience = 2;
  members = λ archive_format file. some (codes "jonchki-1.2.3.4/jonchki.bat" ∷ []);
  unpack = λ folder' file names state. 1;
  environ = λ name. none;
  clock = λ n. 0;
  host = host;
  cwd = codes "/";
}

abbrev settings : Settings
settings = record {
  jonchki_version = codes "1.2.3.4";
  output_folder = codes "/o";
  local_archives = none;
  lua_interpreter = codes "lua5.1";
}

abbrev command : Word
command = codes "/o/jonchki-1.2.3.4/jonchki.bat"

installed : install os settings 0 ≡ (some (some command), 2)
unfolding install ◌>>=◌ detect_here join start update fresh print_line windows_platform extract_zip
    first_invalid leaves relpath join_words abspath split match_version after_prefix
installed = refl

install-IsFound_example :
    (platform : Platform) × (detect_here os.host ≡ some platform)
    × IsFound os settings
        (names_of platform settings.output_folder
          (overwritten (os.environ (codes "JONCHKI_VERSION_OVERWRITE")) settings.jonchki_version))
        command
        2
install-IsFound_example = install-IsFound os settings command 0 2 installed

check_jonchki_version-removes_example :
    ((os.is_dir folder 1 ≡ false) × Path ℕ 0 1)
    ⊎ ((os.is_dir folder 1 ≡ true) × (u : ℕ) × Path ℕ 0 (os.rmtree folder u))
unfolding check_jonchki_version ◌>>=◌ match_version after_prefix
check_jonchki_version-removes_example =
    check_jonchki_version-removes os none folder command (codes "9.9.9.9") none 1 0 refl
