-- ===== src/Logfiles/Tests.antt =====
-- The manager of the log files, at examples.
use org_muhkuh_tools_flasher.Common.{
  ℕ, ◌+◌, ◌≡◌, refl, Bool, true, false, ◌&&◌, ◌||◌, none, some, [], ◌∷◌, ◌++◌, none-ne-some,
}
use org_muhkuh_tools_flasher.Common.Words.{Word, codes}
use org_muhkuh_tools_flasher.Common.Decimals.{two_digits}
use org_muhkuh_tools_flasher.Files.{Place, Nodes, directory, file, Disk, lookup, is_dir}
use org_muhkuh_tools_flasher.Logfiles.{
  State, Call, Formats, temporary, zipped, working, archive_of, manager, gen_name_logfiles_man,
  logfiles_folder_reset_create, wrap_archive_logs_and_clear,
}
use org_muhkuh_tools_flasher.Logfiles.Archives.{none_yet, next_call, Calls-archive}
use org_muhkuh_tools_flasher.Logfiles.Names.{gen_name_logfiles_man-injective}
use org_muhkuh_tools_flasher.Logfiles.Ready.{IsReady, IsFresh}
use org_muhkuh_tools_flasher.Logfiles.Emptied.{is_in, without_file}
use org_muhkuh_tools_flasher.Logfiles.Reset.{logfiles_folder_reset_create-lookup}
use org_muhkuh_tools_flasher.Logfiles.Success.{Done, wrap_archive_logs_and_clear-Done}
use org_muhkuh_tools_flasher.Logfiles.Fresh.{IsAbsent, manager-IsReady}

-- The contents of a file are a number; an archive is the number of its places.
abbrev count : Nodes ℕ → ℕ
count [] = 0
count (x ∷ xs) = 1 + count xs

abbrev formats : Formats ℕ
formats = record { zip = count; json = λ r. 7 }

abbrev home : Place
home = codes "h" ∷ [] ∷ []

abbrev root : Place
root = codes "logs" ∷ home

abbrev nothing_refused : Place → Bool
nothing_refused p = false

abbrev old_archive : Word
old_archive = codes "old"

abbrev used : Disk ℕ
used = record {
  nodes =
      (archive_of root old_archive, file 5)
      ∷ (codes "a.log" ∷ temporary root, file 1)
      ∷ (temporary root, directory)
      ∷ (working root, directory)
      ∷ (zipped root, directory)
      ∷ (root, directory)
      ∷ (home, directory)
      ∷ [];
  refuses = nothing_refused;
}

abbrev state : State ℕ
state = record { disk = used; unique_log_index = 4 }

abbrev call : Call
call = record {
  uuid = some (codes "u");
  stripped_uuid = codes "s";
  time_stamp = codes "t";
  platform = codes "linux";
  machine = codes "x";
  test_name = codes "n";
  upper_index = 12;
  comment = codes "c";
  result = none;
}

name_3 : gen_name_logfiles_man call 12 3 ≡ codes "u-12_03-t-linux-x"
unfolding gen_name_logfiles_man two_digits
name_3 = refl

gen_name_logfiles_man-injective_example : Path ℕ 12 12 × Path ℕ 4 4
gen_name_logfiles_man-injective_example =
    gen_name_logfiles_man-injective call call 12 12 4 4 [] [] refl refl

Calls-archive_example :
    lookup
      (wrap_archive_logs_and_clear formats root call state).1.disk.nodes
      (archive_of root old_archive)
    ≡ some (file 5)
unfolding lookup
Calls-archive_example =
    Calls-archive formats root old_archive (file 5) (next_call call none_yet) refl

logfiles_folder_reset_create-lookup_example :
    (after : Disk ℕ) × (logfiles_folder_reset_create root used ≡ (some tt, after))
    × (after.refuses ≡ nothing_refused)
    × ((p : Place)
        → lookup after.nodes p
          ≡ without_file
              ((is_in (temporary root) p || is_in (working root) p) && true)
              (lookup used.nodes p))
unfolding is_dir
logfiles_folder_reset_create-lookup_example =
    logfiles_folder_reset_create-lookup (codes "logs") home used refl refl refl refl

abbrev bare : Disk ℕ
bare = record { nodes = (home, directory) ∷ []; refuses = nothing_refused }

and_false : (b : Bool) → (b && false) ≡ false
and_false true = refl
and_false false = refl

bare-IsAbsent : IsAbsent root bare
unfolding lookup
bare-IsAbsent = record {
  no_root = refl;
  no_folder = λ x. simp and_false;
  no_archive = λ x. simp and_false;
}

manager-IsReady_example :
    (s : State ℕ) × (manager root bare ≡ (some s, s.disk))
    × IsReady root s.disk
    × ((uuid : Word) → IsFresh uuid root s.unique_log_index s.disk)
unfolding is_dir
manager-IsReady_example = manager-IsReady (codes "logs") home bare refl bare-IsAbsent (λ p. refl)

abbrev ready : Disk ℕ
ready = record {
  nodes =
      (codes "a.log" ∷ temporary root, file 1)
      ∷ (temporary root, directory)
      ∷ (working root, directory)
      ∷ (zipped root, directory)
      ∷ (root, directory)
      ∷ [];
  refuses = nothing_refused;
}

abbrev ready_state : State ℕ
ready_state = record { disk = ready; unique_log_index = 0 }

free : (x : Word) → lookup ready.nodes (x ∷ zipped root) ≡ none
unfolding lookup
free x = simp and_false

wrap_archive_logs_and_clear-Done_example :
    (t : State ℕ) × (wrap_archive_logs_and_clear formats root call ready_state ≡ (some tt, t))
    × Done formats root call ready_state t
unfolding is_dir lookup
wrap_archive_logs_and_clear-Done_example =
    wrap_archive_logs_and_clear-Done formats (codes "logs") home call ready_state
      (record { has_zipped = refl; has_temporary = refl; has_working = refl; allows = λ p. refl })
      (λ other i n w u h. free (gen_name_logfiles_man other i n ++ w)) (λ e. none-ne-some _ e)
