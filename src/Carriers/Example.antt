-- ===== src/Carriers/Example.antt =====
-- A system on which each operation succeeds, for the examples: every path is a folder, and a process
-- returns 3 if its command ends with an exclamation mark, else 0.
use org_muhkuh_tools_flasher.Common.{
  ℕ, ◌-◌, ◌==◌, Bool, true, false, none, some, [], ◌∷◌, if◌then◌else◌,
}
use org_muhkuh_tools_flasher.Common.Words.{Word, codes}
use org_muhkuh_tools_flasher.Common.Decimals.{decimal}
use org_muhkuh_tools_flasher.Batch.{exit_code}
use org_muhkuh_tools_flasher.Carriers.System.{log, CommandSystem}

abbrev ends_loud : Word → Bool
ends_loud [] = false
ends_loud (c ∷ []) = c == b'!'
ends_loud (c ∷ (d ∷ w)) = ends_loud (d ∷ w)

abbrev pub working_system : {R : Type 0} → CommandSystem R ℕ
working_system = record {
  is_dir = λ here path r. true;
  chdir = λ here path r. some path;
  realpath = λ here path. path;
  open_file = λ here path r. (some (log path), r);
  write = λ stream text r. (some tt, r);
  close = λ stream r. (some tt, r);
  popen = λ here cmd out err r. (
    some (record {
      stdout = none;
      stderr = none;
      returncode = exit_code (if ends_loud cmd then 3 else 0);
    }),
    r,
  );
  date = λ r. (some (codes "today"), r);
  time = λ r. (some 5, r);
  minus = λ a b. a - b;
  float_text = decimal;
  decode = λ w. some w;
}
