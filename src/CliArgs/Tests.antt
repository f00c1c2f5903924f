-- ===== src/CliArgs/Tests.antt =====
-- Runs of the command line, and the theorems at concrete arguments.
use org_muhkuh_tools_flasher.Common.{◌≡◌, refl, none, some, List, [], ◌∷◌}
use org_muhkuh_tools_flasher.Common.Words.{Word, codes}
use org_muhkuh_tools_flasher.Platform.{Host, Platform, detect, windows_platform, windows_cpu}
use org_muhkuh_tools_flasher.CliArgs.{Target, parse, to_jonchki_args}
use org_muhkuh_tools_flasher.CliArgs.Laws.{read_args, read_args-to_jonchki_args}

abbrev host : Host
host = record {
  system = codes "Windows";
  processor_architecture = some (codes "x86");
  processor_architew6432 = some (codes "AMD64");
  getconf_long_bit = none;
  lscpu = none;
  lsb_release = none;
}

abbrev windows : Platform
windows = record {
  cpu_architecture = some (codes "x86_64");
  distribution_id = some (codes "windows");
  distribution_version = none;
  archive_format = codes "zip";
}

abbrev args : List Word
args = codes "ubuntu" ∷ codes "18.04" ∷ codes "x86" ∷ []

abbrev target : Target
target = record {
  distribution_id = some (codes "ubuntu");
  distribution_version = some (codes "18.04");
  cpu_architecture = some (codes "x86");
  platform_id = codes "ubuntu_18.04_x86";
  host = windows;
}

parsed : parse windows args ≡ some target
unfolding parse
parsed = refl

-- Without a version only Windows is accepted.
refused : parse windows (codes "ubuntu" ∷ codes "x86" ∷ []) ≡ none
unfolding parse
refused = refl

read_args-to_jonchki_args_example :
    read_args (to_jonchki_args target)
    ≡ some (codes "ubuntu", some (codes "18.04"), some (codes "x86"))
read_args-to_jonchki_args_example = read_args-to_jonchki_args target (codes "ubuntu") refl

detected : detect host ≡ some windows
unfolding detect windows_platform windows_cpu
detected = refl

cpu_known : windows_cpu host ≡ some (codes "x86_64")
unfolding windows_cpu
cpu_known = refl
