-- ===== src/CliArgs.antt =====
-- jonchki/cli_args.py: the platform that a build is for, from the command line or from the host.
pub mod Laws
mod Tests
use org_muhkuh_tools_flasher.Common.{
  Bool, true, false, Option, none, some, List, [], ◌∷◌, ◌++◌, if◌then◌else◌,
}
use org_muhkuh_tools_flasher.Common.Words.{Word, codes, eq_word}
use org_muhkuh_tools_flasher.Platform.{Platform}

-- The keys of the dictionary that `parse` returns.
pub record Target : Type 0 where
  pub distribution_id : Option Word
  pub distribution_version : Option Word
  pub cpu_architecture : Option Word
  pub platform_id : Word
  pub host : Platform

-- An attribute that is `None` is written "None" by '%s'.
abbrev pub show : Option Word → Word
show none = codes "None"
show (some w) = w

abbrev pub underscore : Word
underscore = codes "_"

-- '%s_%s' and '%s_%s_%s'
unfoldable pub platform_name : Option Word → Option Word → Option Word → Word
platform_name id none cpu = show id ++ underscore ++ show cpu
platform_name id (some version) cpu = show id ++ underscore ++ version ++ underscore ++ show cpu

-- `parse`, on the arguments behind the program's name. `none` is an exception.
unfoldable pub parse : Platform → List Word → Option Target
unfolding platform_name
parse host [] = some (record {
  distribution_id = host.distribution_id;
  distribution_version = host.distribution_version;
  cpu_architecture = host.cpu_architecture;
  platform_id = platform_name host.distribution_id host.distribution_version host.cpu_architecture;
  host = host;
})
parse host (id ∷ (cpu ∷ [])) =
    if eq_word id (codes "windows")
    then some (record {
      distribution_id = some id;
      distribution_version = none;
      cpu_architecture = some cpu;
      platform_id = id ++ underscore ++ cpu;
      host = host;
    })
    else none
parse host (id ∷ (version ∷ (cpu ∷ []))) = some (record {
  distribution_id = some id;
  distribution_version = some version;
  cpu_architecture = some cpu;
  platform_id = id ++ underscore ++ version ++ underscore ++ cpu;
  host = host;
})
parse host _ = none

version_args : Option Word → List (Option Word)
version_args none = some (codes "--empty-distribution-version") ∷ []
version_args (some version) = some (codes "--distribution-version") ∷ some version ∷ []

-- `to_jonchki_args`. The last argument is `None` if the CPU is not known.
unfoldable pub to_jonchki_args : Target → List (Option Word)
unfolding version_args
to_jonchki_args t = elim t.distribution_id [
  | none ↦ []
  | some id ↦
      some (codes "--distribution-id")
      ∷ some id
      ∷ (version_args t.distribution_version
          ++ some (codes "--cpu-architecture") ∷ t.cpu_architecture ∷ [])
]
