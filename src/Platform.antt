-- ===== src/Platform.antt =====
-- jonchki/platform_detect.py, class PlatformDetect, and its two copies in jonchki/jonchkihere.py and
-- regression/common/simpelTools/src/platform_detect.py.
pub mod Laws
mod Tests
use org_muhkuh_tools_flasher.Common.{
  ℕ, Bool, true, false, ◌&&◌, ◌||◌, not, Option, none, some, List, [], ◌∷◌, ◌==◌, if◌then◌else◌,
}
use org_muhkuh_tools_flasher.Common.Words.{
  Word, codes, eq_word, lower, strip, is_space, drop_while, take_while, after_prefix,
}

-- What the detection reads of its host: `platform.system()`, two environment variables, the outputs
-- of two commands (`none` if a command fails), and the lines of /etc/lsb-release with their line
-- feeds (`none` if it cannot be opened).
pub record Host : Type 0 where
  pub system : Word
  pub processor_architecture : Option Word
  pub processor_architew6432 : Option Word
  pub getconf_long_bit : Option Word
  pub lscpu : Option Word
  pub lsb_release : Option (List Word)

pub record Platform : Type 0 where
  pub cpu_architecture : Option Word
  pub distribution_id : Option Word
  pub distribution_version : Option Word
  pub archive_format : Word

-- `none` is an exception.
abbrev pub option_is : Option Word → Word → Bool
option_is none w = false
option_is (some v) w = eq_word v w

abbrev pub is_none : Option Word → Bool
is_none none = true
is_none (some v) = false

abbrev pub lower_option : Option Word → Option Word
lower_option none = none
lower_option (some w) = some (lower w)

-- `__windows_get_cpu_architecture_env`
unfoldable pub windows_cpu : Host → Option Word
unfolding lower
windows_cpu h =
    let arch = lower_option h.processor_architecture in
    let w6432 = lower_option h.processor_architew6432 in
    if option_is arch (codes "amd64") || option_is w6432 (codes "amd64")
    then some (codes "x86_64")
    else if option_is arch (codes "x86") && is_none w6432
    then some (codes "x86")
    else none

-- `__linux_get_os_architecture_getconf`, on the output of the command.
unfoldable pub getconf_cpu : Word → Option Word
unfolding strip
getconf_cpu output =
    let bits = strip output in
    if eq_word bits (codes "32")
    then some (codes "x86")
    else if eq_word bits (codes "64")
    then some (codes "x86_64")
    else none

-- `re.search('Architecture: *(\S+)', output)`, and its group.
match_architecture : Word → Option Word
unfolding after_prefix drop_while take_while
match_architecture s = elim (after_prefix (codes "Architecture:") s) [
  | none ↦ none
  | some rest ↦ elim (take_while (λ c. not (is_space c)) (drop_while (λ c. c == 32) rest)) [
    | [] ↦ none
    | c ∷ w ↦ some (c ∷ w)
  ]
]

unfoldable pub search_architecture : Word → Option Word
unfolding match_architecture
search_architecture [] = match_architecture []
search_architecture (c ∷ s) =
    let later = search_architecture s in
    elim (match_architecture (c ∷ s)) [ some w ↦ some w | none ↦ later ]

abbrev pub is_32_bit : Word → Bool
is_32_bit w =
    eq_word w (codes "i386")
    || eq_word w (codes "i486")
    || eq_word w (codes "i586")
    || eq_word w (codes "i686")

-- `__linux_get_cpu_architecture_lscpu`, on the output of the command.
unfoldable pub lscpu_cpu : Word → Option Word
unfolding search_architecture
lscpu_cpu output = elim (search_architecture output) [
  | none ↦ none
  | some w ↦ some (if is_32_bit w then codes "x86" else w)
]

-- `re.match(prefix + '(.+)', line)`, and its group: `.` does not match the line feed.
unfoldable pub match_value : Word → Word → Option Word
unfolding after_prefix take_while
match_value prefix line = elim (after_prefix prefix line) [
  | none ↦ none
  | some rest ↦ elim (take_while (λ c. not (c == 10)) rest) [ [] ↦ none | c ∷ w ↦ some (c ∷ w) ]
]

-- The value found in a line, or the one found before.
abbrev pub newer : Option Word → Option Word → Option Word
newer none old = old
newer (some w) old = some w

unfoldable pub lsb_line : Word → Option Word × Option Word → Option Word × Option Word
unfolding match_value lower
lsb_line line (id, version) = (
  newer (lower_option (match_value (codes "DISTRIB_ID=") line)) id,
  newer (match_value (codes "DISTRIB_RELEASE=") line) version,
)

unfoldable pub lsb_lines : List Word → Option Word × Option Word → Option Word × Option Word
lsb_lines [] found = found
lsb_lines (line ∷ lines) found = lsb_lines lines (lsb_line line found)

abbrev pub both_or_none : Option Word × Option Word → Option Word × Option Word
both_or_none (some id, some version) = (some id, some version)
both_or_none _ = (none, none)

-- `__linux_detect_distribution_etc_lsb_release`
unfoldable pub detect_distribution : List Word → Option Word × Option Word
detect_distribution lines = both_or_none (lsb_lines lines (none, none))

-- The CPU of a Linux: that of the operating system, or that of the machine.
unfoldable pub linux_cpu : Host → Option Word
unfolding getconf_cpu lscpu_cpu
linux_cpu h = elim h.getconf_long_bit [
  | none ↦ none
  | some bits ↦ elim (getconf_cpu bits) [
    | some cpu ↦ some cpu
    | none ↦ elim h.lscpu [ none ↦ none | some output ↦ lscpu_cpu output ]
  ]
]

-- `detect` on Windows, with the version that the copy of the class sets.
unfoldable pub windows_platform : Option Word → Host → Platform
windows_platform windows_version h = record {
  cpu_architecture = windows_cpu h;
  distribution_id = some (codes "windows");
  distribution_version = windows_version;
  archive_format = codes "zip";
}

-- `detect` on Linux.
unfoldable pub linux_platform : Host → Option Platform
linux_platform h = elim (linux_cpu h) [
  | none ↦ none
  | some cpu ↦ elim h.lsb_release [
    | none ↦ none
    | some lines ↦
        let (id, version) = detect_distribution lines in
        some (record {
          cpu_architecture = some cpu;
          distribution_id = id;
          distribution_version = version;
          archive_format = codes "tar.gz";
        })
  ]
]

unfoldable pub detect_with : Option Word → Host → Option Platform
detect_with windows_version h =
    if eq_word h.system (codes "Windows")
    then some (windows_platform windows_version h)
    else if eq_word h.system (codes "Linux")
    then linux_platform h
    else none

-- jonchki/platform_detect.py
unfoldable pub detect : Host → Option Platform
unfolding detect_with
detect = detect_with none

-- jonchki/jonchkihere.py
unfoldable pub detect_here : Host → Option Platform
unfolding detect_with
detect_here = detect_with (some [])

-- regression/common/simpelTools/src/platform_detect.py
unfoldable pub detect_simple_tools : Host → Option Platform
unfolding detect_with
detect_simple_tools = detect_with (some [])
