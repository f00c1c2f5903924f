-- ===== src/Logfiles.antt =====
-- regression/common/simpelTools/src/class_logfilemanager.py: the folders of the log files, and the
-- archives that each test leaves. With mkdirSkipExistence of simpelTools/src/filetools.py.
pub mod Emptied
pub mod Reset
pub mod Names
pub mod Archives
pub mod Ready
pub mod Success
pub mod Fresh
mod Tests
use org_muhkuh_tools_flasher.Common.{
  ℕ, zero, suc, Bool, true, false, Option, none, some, List, [], ◌∷◌, ◌++◌, if◌then◌else◌,
}
use org_muhkuh_tools_flasher.Common.Io.{Io, ◌>>=◌, ◌>>◌, return, raise, modify, gets}
use org_muhkuh_tools_flasher.Common.Integers.{ℤ}
use org_muhkuh_tools_flasher.Common.Decimals.{decimal, two_digits}
use org_muhkuh_tools_flasher.Common.Words.{Word, codes}
use org_muhkuh_tools_flasher.Files.{
  Place, dirname, Node, directory, file, Nodes, Disk, tree, exists, is_dir, listdir, mkdir, remove,
  write, attempt,
}

-- The disk, and `unique_log_index`.
pub record State (B : Type 0) : Type 0 where
  pub disk : Disk B
  pub unique_log_index : ℕ

-- One entry of the list of results of a test: its UUID, the errors, the name and the number of its tests.
pub record Result : Type 0 where
  pub err : ℤ
  pub name : Word
  pub num_test : ℕ

-- `dict_result`, as it is dumped.
pub data Report : Type 0 where
  results : Result → Word → Option Word → Report
  not_provided : Word → Report

-- The contents of an archive of a tree, and of a JSON file.
pub record Formats (B : Type 0) : Type 0 where
  pub zip : Nodes B → B
  pub json : Report → B

-- The arguments of `wrap_archive_logs_and_clear`, with the values it gets from the clock, from `uuid4` and
-- from the platform. The names that it makes of them hold no slash.
pub record Call : Type 0 where
  pub uuid : Option Word
  pub stripped_uuid : Word
  pub time_stamp : Word
  pub platform : Word
  pub machine : Word
  pub test_name : Word
  pub upper_index : ℕ
  pub comment : Word
  pub result : Option (List Result)

abbrev pub temporary : Place → Place
temporary root = codes "logs_last_run" ∷ root

abbrev pub zipped : Place → Place
zipped root = codes "logs_final_zip" ∷ root

abbrev pub working : Place → Place
working root = codes "logs_working_dir" ∷ root

-- A name that is missing or empty is replaced by the generated one.
abbrev pub uuid_or_generated : Option Word → Word → Word
uuid_or_generated none generated = generated
uuid_or_generated (some []) generated = generated
uuid_or_generated (some (c ∷ w)) generated = c ∷ w

abbrev pub gen_os_string : Call → Word
gen_os_string call = call.platform ++ b'-' ∷ call.machine

-- What follows the two indexes.
abbrev pub stamp : Call → Word
stamp call = b'-' ∷ call.time_stamp ++ b'-' ∷ gen_os_string call

unfoldable pub gen_name_logfiles_man : Call → ℕ → ℕ → Word
gen_name_logfiles_man call index_maj index_minor =
    uuid_or_generated call.uuid call.stripped_uuid
    ++ b'-' ∷ two_digits index_maj
    ++ b'_' ∷ two_digits index_minor
    ++ stamp call

unfoldable pub last : List Result → Option Result
last [] = none
last (r ∷ []) = some r
last (r ∷ (s ∷ rs)) = last (s ∷ rs)

-- `result[-1]` of an empty list raises.
report_of : Option (List Result) → Word → Option Word → Option Report
unfolding last
report_of none total_name uuid = some (not_provided total_name)
report_of (some rs) total_name uuid = elim (last rs) [
  | none ↦ none
  | some r ↦ some (results r total_name uuid)
]

unfoldable pub report : Call → Word → Option Report
unfolding report_of
report call total_name = report_of call.result total_name call.uuid

abbrev pub from_option : {W A : Type 0} → Option A → Io W A
from_option o w = (o, w)

abbrev pub log_name : Word → Word → Word
log_name suffix prefix = prefix ++ (codes "logfiles" ++ b'_' ∷ suffix)

abbrev pub summary_json : Place → Word → Place
summary_json root total_name = (total_name ++ codes ".json") ∷ zipped root

abbrev pub archive_of : Place → Word → Place
archive_of root total_name = (total_name ++ codes ".zip") ∷ zipped root

module _ {B : Type 0} where
  abbrev pub on_disk : {A : Type 0} → Io (Disk B) A → Io (State B) A
  on_disk m s = ((m s.disk).0, record s { disk = (m s.disk).1 })

  unfoldable pub mkdir_skip_existence : Place → Io (Disk B) Unit
  unfolding exists mkdir
  mkdir_skip_existence p d = if exists p d then (some tt, d) else mkdir p d

  -- The loop that removes the old files: what cannot be removed stays.
  unfoldable pub remove_files : Place → List Word → Io (Disk B) Unit
  unfolding attempt remove ◌>>=◌
  remove_files folder [] = return tt
  remove_files folder (f ∷ fs) = do attempt (remove (f ∷ folder)); remove_files folder fs

  remove_listed : Place → Option (List Word) → Io (Disk B) Unit
  unfolding remove_files
  remove_listed folder none = return tt
  remove_listed folder (some names) = remove_files folder names

  -- A folder that cannot be listed is left as it is.
  unfoldable pub empty_folder : Place → Io (Disk B) Unit
  unfolding listdir remove_listed
  empty_folder folder d = remove_listed folder (listdir folder d).0 d

  -- One folder of `reset_folders`. A path without a folder raises, in the format of the message.
  unfoldable pub reset_folder : Place → Io (Disk B) Unit
  unfolding is_dir empty_folder mkdir_skip_existence
  reset_folder [] d = (none, d)
  reset_folder (name ∷ []) d = (none, d)
  reset_folder (name ∷ (n ∷ base)) d =
      if is_dir (name ∷ n ∷ base) d
      then empty_folder (name ∷ n ∷ base) d
      else mkdir_skip_existence (name ∷ n ∷ base) d

  unfoldable pub reset_folders : List Place → Io (Disk B) Unit
  unfolding reset_folder ◌>>=◌
  reset_folders [] = return tt
  reset_folders (folder ∷ reset) = do reset_folder folder; reset_folders reset

  unfoldable pub logfiles_folder_reset_create : Place → Io (Disk B) Unit
  unfolding reset_folders
  logfiles_folder_reset_create root = reset_folders (temporary root ∷ working root ∷ [])

  unfoldable pub zipfolder_reset_create : Place → Io (Disk B) Unit
  unfolding reset_folders
  zipfolder_reset_create root = reset_folders (zipped root ∷ [])

  unfoldable pub logfiles_manage_init : Place → Io (Disk B) Unit
  unfolding mkdir_skip_existence zipfolder_reset_create logfiles_folder_reset_create ◌>>=◌
  logfiles_manage_init root = do
    mkdir_skip_existence root
    zipfolder_reset_create root
    logfiles_folder_reset_create root

  -- The constructor.
  unfoldable pub manager : Place → Io (Disk B) (State B)
  unfolding exists logfiles_manage_init ◌>>=◌
  manager root d =
      if exists (dirname root) d
      then (do logfiles_manage_init root; gets (λ d. record { disk = d; unique_log_index = 0 })) d
      else (none, d)

  unfoldable pub get_unique_index : Io (State B) ℕ
  get_unique_index s =
      (some s.unique_log_index, record s { unique_log_index = suc s.unique_log_index })

  module _ (formats : Formats B) where
    -- `shutil.make_archive`, which makes the folder of the archive; its parent is there, since the source
    -- folder is in it.
    unfoldable pub make_archive : Place → Place → Io (Disk B) Unit
    unfolding mkdir_skip_existence write tree ◌>>=◌
    make_archive archive source = do
      mkdir_skip_existence (dirname archive)
      nodes ← gets (λ (d : Disk B). tree d.nodes source)
      write archive (formats.zip nodes)

    unfoldable pub archive_logs : Place → Word → Word → Io (Disk B) Word
    unfolding exists make_archive attempt ◌>>=◌
    archive_logs root suffix prefix d =
        let name = log_name suffix prefix in
        let archive = archive_of root name in
        if exists (temporary root) d
        then if exists archive d
          then (none, d)
          else (do attempt (make_archive archive (temporary root)); return name) d
        else (some name, d)

    archive_call : Place → Call → ℕ → Io (State B) Word
    unfolding gen_name_logfiles_man archive_logs
    archive_call root call index = on_disk (
        archive_logs root (call.test_name ++ b'_' ∷ call.comment)
          (gen_name_logfiles_man call call.upper_index index))

    -- What follows the archive: the result beside it, and the reset of the folders.
    finish_call : Place → Call → Word → Io (State B) Unit
    unfolding report write logfiles_folder_reset_create ◌>>=◌
    finish_call root call total_name = do
      dict_result ← from_option (report call total_name)
      on_disk (write (summary_json root total_name) (formats.json dict_result))
      on_disk (logfiles_folder_reset_create root)

    unfoldable pub wrap_archive_logs_and_clear : Place → Call → Io (State B) Unit
    unfolding get_unique_index archive_call finish_call ◌>>=◌
    wrap_archive_logs_and_clear root call = do
      index ← get_unique_index
      total_name ← archive_call root call index
      finish_call root call total_name
