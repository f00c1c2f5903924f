-- ===== src/Platform/Tests.antt =====
-- Detections on concrete hosts.
use org_muhkuh_tools_flasher.Common.{◌≡◌, refl, none, some, List, [], ◌∷◌}
use org_muhkuh_tools_flasher.Common.Words.{Word, codes}
use org_muhkuh_tools_flasher.Platform.{
  Host, Platform, detect_distribution, lsb_line, lsb_lines, linux_cpu, linux_platform, detect,
}

abbrev release : List Word
release = codes "DISTRIB_ID=Debian" ∷ codes "DISTRIB_ID=Ubuntu" ∷ codes "DISTRIB_RELEASE=18.04" ∷ []

abbrev host : Host
host = record {
  system = codes "Linux";
  processor_architecture = none;
  processor_architew6432 = none;
  getconf_long_bit = some (codes "128");
  lscpu = some (codes "CPUs: 4, Architecture:  i686, x");
  lsb_release = some release;
}

abbrev ubuntu : Platform
ubuntu = record {
  cpu_architecture = some (codes "i686,");
  distribution_id = some (codes "ubuntu");
  distribution_version = some (codes "18.04");
  archive_format = codes "tar.gz";
}

detected : detect host ≡ some ubuntu
unfolding detect linux_platform linux_cpu detect_distribution lsb_lines lsb_line
detected = refl
