-- ===== src/Logfiles/Fresh.antt =====
-- A manager for a folder that is not there yet.
use org_muhkuh_tools_flasher.Common.{◌≡◌, refl, ◌∙◌, ap, true, false, none, some, ◌∷◌, ◌++◌, arith}
use org_muhkuh_tools_flasher.Common.Io.{◌>>◌, bind_step, return, gets}
use org_muhkuh_tools_flasher.Common.Words.{Word, codes}
use org_muhkuh_tools_flasher.Files.{
  Place, dirname, eq_place, directory, Disk, is_directory, is_dir, exists, lookup, mkdir, set,
}
use org_muhkuh_tools_flasher.Files.Laws.{
  eq_place-length, eq_place_sym, is_dir-exists, is_dir-set, lookup-set, lookup-set_self,
}
use org_muhkuh_tools_flasher.Logfiles.{
  State, temporary, zipped, working, mkdir_skip_existence, reset_folder, reset_folders,
  zipfolder_reset_create, gen_name_logfiles_man, logfiles_folder_reset_create, logfiles_manage_init,
  manager,
}
use org_muhkuh_tools_flasher.Logfiles.Ready.{IsReady, IsFresh}

above : (x : Word) (root : Place) → eq_place root (x ∷ root) ≡ false
above x root = eq_place-length root (x ∷ root) (λ e. omega arith)

under : (x y : Word) (root : Place) → eq_place root (x ∷ y ∷ root) ≡ false
under x y root = eq_place-length root (x ∷ y ∷ root) (λ e. omega arith)

beside : (x y z : Word) (root : Place) → eq_place (x ∷ root) (y ∷ z ∷ root) ≡ false
beside x y z root = eq_place-length (x ∷ root) (y ∷ z ∷ root) (λ e. omega arith)

module _ {B : Type 0} where
  mkdir_skip-done :
      (p : Place) (d : Disk B)
      → lookup d.nodes p ≡ none
      → is_dir (dirname p) d ≡ true
      → d.refuses p ≡ false
      → mkdir_skip_existence p d ≡ (some tt, set p directory d)
  unfolding mkdir_skip_existence exists mkdir
  mkdir_skip-done p d e h r = rw (e, h, r) refl

  reset_new :
      (x m : Word) (base : Place) (d : Disk B)
      → lookup d.nodes (x ∷ m ∷ base) ≡ none
      → is_dir (m ∷ base) d ≡ true
      → d.refuses (x ∷ m ∷ base) ≡ false
      → reset_folder (x ∷ m ∷ base) d ≡ (some tt, set (x ∷ m ∷ base) directory d)
  unfolding reset_folder is_dir mkdir_skip_existence exists mkdir
  reset_new x m base d e h r = rw (e, h, r) refl

  is_dir-new : (p : Place) (d : Disk B) → is_dir p (set p directory d) ≡ true
  unfolding is_dir
  is_dir-new p d = ap is_directory (lookup-set_self p directory d)

  -- The folder and all that the manager makes in it are not there.
  pub record IsAbsent (root : Place) (d : Disk B) : Type 0 where
    pub no_root : lookup d.nodes root ≡ none
    pub no_folder : (x : Word) → lookup d.nodes (x ∷ root) ≡ none
    pub no_archive : (x : Word) → lookup d.nodes (x ∷ zipped root) ≡ none

  -- The disk with the four new folders.
  with_root : Place → Disk B → Disk B
  with_root root d = set root directory d

  with_zipped : Place → Disk B → Disk B
  unfolding with_root
  with_zipped root d = set (zipped root) directory (with_root root d)

  with_temporary : Place → Disk B → Disk B
  unfolding with_zipped
  with_temporary root d = set (temporary root) directory (with_zipped root d)

  with_all : Place → Disk B → Disk B
  unfolding with_temporary
  with_all root d = set (working root) directory (with_temporary root d)

  zipfolder-new :
      (m : Word) (base : Place) (d : Disk B)
      → IsAbsent (m ∷ base) d
      → ((p : Place) → d.refuses p ≡ false)
      → zipfolder_reset_create (m ∷ base) (with_root (m ∷ base) d)
        ≡ (some tt, with_zipped (m ∷ base) d)
  unfolding zipfolder_reset_create reset_folders with_zipped
  zipfolder-new m base d a r =
      let root = m ∷ base in
      bind_step (reset_folder (zipped root)) (λ _. return tt) (set root directory d)
        (reset_new (codes "logs_final_zip") m base (set root directory d)
          (lookup-set root (zipped root) directory d (above (codes "logs_final_zip") root)
            ∙ a.no_folder (codes "logs_final_zip"))
          (is_dir-new root d) (r (zipped root)))

  logfiles-new :
      (m : Word) (base : Place) (d : Disk B)
      → IsAbsent (m ∷ base) d
      → ((p : Place) → d.refuses p ≡ false)
      → logfiles_folder_reset_create (m ∷ base) (with_zipped (m ∷ base) d)
        ≡ (some tt, with_all (m ∷ base) d)
  unfolding logfiles_folder_reset_create reset_folders with_all
  logfiles-new m base d a r =
      let root = m ∷ base in
      bind_step (reset_folder (temporary root)) (λ _. reset_folder (working root) >> return tt)
        (with_zipped root d)
        (reset_new (codes "logs_last_run") m base (with_zipped root d)
          (lookup-set (zipped root) (temporary root) directory (with_root root d) refl
            ∙ lookup-set root (temporary root) directory d (above (codes "logs_last_run") root)
            ∙ a.no_folder (codes "logs_last_run"))
          (is_dir-set (zipped root) root directory (with_root root d)
              (eq_place_sym root (zipped root) (above (codes "logs_final_zip") root))
            ∙ is_dir-new root d)
          (r (temporary root)))
      ∙ bind_step (reset_folder (working root)) (λ _. return tt) (with_temporary root d)
          (reset_new (codes "logs_working_dir") m base (with_temporary root d)
            (lookup-set (temporary root) (working root) directory (with_zipped root d) refl
              ∙ lookup-set (zipped root) (working root) directory (with_root root d) refl
              ∙ lookup-set root (working root) directory d (above (codes "logs_working_dir") root)
              ∙ a.no_folder (codes "logs_working_dir"))
            (is_dir-set (temporary root) root directory (with_zipped root d)
                (eq_place_sym root (temporary root) (above (codes "logs_last_run") root))
              ∙ is_dir-set (zipped root) root directory (with_root root d)
                  (eq_place_sym root (zipped root) (above (codes "logs_final_zip") root))
              ∙ is_dir-new root d)
            (r (working root)))

  manager-done :
      (m : Word) (base : Place) (d : Disk B)
      → is_dir base d ≡ true
      → IsAbsent (m ∷ base) d
      → ((p : Place) → d.refuses p ≡ false)
      → manager (m ∷ base) d ≡ (
        some (record { disk = with_all (m ∷ base) d; unique_log_index = 0 }),
        with_all (m ∷ base) d,
      )
  unfolding manager logfiles_manage_init with_root
  manager-done m base d i a r =
      let root = m ∷ base in
      let init =
        bind_step (mkdir_skip_existence root)
          (λ _. zipfolder_reset_create root >> logfiles_folder_reset_create root) d
          (mkdir_skip-done root d a.no_root i (r root))
        ∙ bind_step (zipfolder_reset_create root) (λ _. logfiles_folder_reset_create root)
            (with_root root d) (zipfolder-new m base d a r)
        ∙ logfiles-new m base d a r in
      rw (is_dir-exists base d i) (
        bind_step (logfiles_manage_init root)
          (λ _. gets (λ d. record { disk = d; unique_log_index = 0 })) d init)

  with_all-other :
      (x y : Word) (root : Place) (d : Disk B)
      → lookup (with_all root d).nodes (x ∷ y ∷ root) ≡ lookup d.nodes (x ∷ y ∷ root)
  unfolding with_all
  with_all-other x y root d =
      lookup-set (working root) _ directory (with_temporary root d)
        (beside (codes "logs_working_dir") x y root)
      ∙ lookup-set (temporary root) _ directory (with_zipped root d)
          (beside (codes "logs_last_run") x y root)
      ∙ lookup-set (zipped root) _ directory (with_root root d)
          (beside (codes "logs_final_zip") x y root)
      ∙ lookup-set root _ directory d (under x y root)

  with_all-IsReady :
      (root : Place) (d : Disk B)
      → ((p : Place) → d.refuses p ≡ false)
      → IsReady root (with_all root d)
  unfolding with_all
  with_all-IsReady root d r = record {
    has_zipped =
        is_dir-set (working root) (zipped root) directory (with_temporary root d) refl
        ∙ is_dir-set (temporary root) (zipped root) directory (with_zipped root d) refl
        ∙ is_dir-new (zipped root) (with_root root d);
    has_temporary =
        is_dir-set (working root) (temporary root) directory (with_temporary root d) refl
        ∙ is_dir-new (temporary root) (with_zipped root d);
    has_working = is_dir-new (working root) (with_temporary root d);
    allows = r;
  }

  -- If the parent folder is there, nothing is refused, and neither the folder of the manager nor
  -- anything in it or in its archive folder is there: the constructor succeeds, its three folders
  -- are there, and no name is taken for any UUID.
  pub manager-IsReady :
      (m : Word) (base : Place) (d : Disk B)
      → is_dir base d ≡ true
      → IsAbsent (m ∷ base) d
      → ((p : Place) → d.refuses p ≡ false)
      → (s : State B) × (manager (m ∷ base) d ≡ (some s, s.disk))
        × IsReady (m ∷ base) s.disk
        × ((uuid : Word) → IsFresh uuid (m ∷ base) s.unique_log_index s.disk)
  manager-IsReady m base d i a r = (
    record { disk = with_all (m ∷ base) d; unique_log_index = 0 },
    manager-done m base d i a r,
    with_all-IsReady (m ∷ base) d r,
    λ uuid call j n w u h.
        with_all-other _ _ (m ∷ base) d ∙ a.no_archive (gen_name_logfiles_man call j n ++ w),
  )
