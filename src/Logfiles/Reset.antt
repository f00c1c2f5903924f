-- ===== src/Logfiles/Reset.antt =====
-- What the reset of the folders does to each place.
use org_muhkuh_tools_flasher.Common.{
  ◌≡◌, refl, ◌∙◌, ap, Bool, true, false, not, ◌&&◌, ◌||◌, Option, none, some, [], ◌∷◌, arith,
  if_cases,
}
use org_muhkuh_tools_flasher.Common.Io.{◌>>◌, bind_step, return}
use org_muhkuh_tools_flasher.Common.Words.{Word, codes}
use org_muhkuh_tools_flasher.Files.{
  Place, Node, directory, file, Disk, is_directory, is_dir, exists, lookup,
}
use org_muhkuh_tools_flasher.Files.Laws.{mkdir-some}
use org_muhkuh_tools_flasher.Logfiles.{
  mkdir_skip_existence, temporary, working, empty_folder, reset_folder, reset_folders,
  logfiles_folder_reset_create,
}
use org_muhkuh_tools_flasher.Logfiles.Emptied.{
  is_in, without_file, without_file-or, empty_folder-lookup, empty_folder-returns,
  empty_folder-refuses, empty_folder-other,
}

module _ {B : Type 0} where
  pub mkdir_skip-some :
      (p q : Place) (n : Node B) (d : Disk B)
      → lookup d.nodes p ≡ some n
      → lookup (mkdir_skip_existence q d).1.nodes p ≡ some n
  unfolding mkdir_skip_existence
  mkdir_skip-some p q n d e =
      if_cases (λ (r : Option Unit × Disk B). lookup r.1.nodes p ≡ some n) (exists q d) (λ _. e)
        (λ _. mkdir-some p q n d e)

  -- A reset keeps what is not directly in the folder.
  pub reset_folder-some :
      (folder p : Place) (n : Node B) (d : Disk B)
      → is_in folder p ≡ false
      → lookup d.nodes p ≡ some n
      → lookup (reset_folder folder d).1.nodes p ≡ some n
  unfolding reset_folder
  reset_folder-some [] p n d h e = e
  reset_folder-some (x ∷ []) p n d h e = e
  reset_folder-some (x ∷ (m ∷ base)) p n d h e =
      if_cases (λ (r : Option Unit × Disk B). lookup r.1.nodes p ≡ some n) (is_dir (x ∷ m ∷ base) d)
        (λ _. empty_folder-other (x ∷ m ∷ base) p d h ∙ e)
        (λ _. mkdir_skip-some p (x ∷ m ∷ base) n d e)

  reset_dir :
      (x m : Word) (base : Place) (d : Disk B)
      → is_dir (x ∷ m ∷ base) d ≡ true
      → reset_folder (x ∷ m ∷ base) d ≡ empty_folder (x ∷ m ∷ base) d
  unfolding reset_folder
  reset_dir x m base d h = rw h refl

  reset_dir_step :
      (x m : Word) (base : Place) (d : Disk B)
      → is_dir (x ∷ m ∷ base) d ≡ true
      → reset_folder (x ∷ m ∷ base) d ≡ (some tt, (empty_folder (x ∷ m ∷ base) d).1)
  reset_dir_step x m base d h =
      reset_dir x m base d h
      ∙ ap (λ o. (o, (empty_folder (x ∷ m ∷ base) d).1)) (empty_folder-returns (x ∷ m ∷ base) d)

  pub directory_kept :
      (b : Bool) (n : Option (Node B)) → is_directory (without_file b n) ≡ is_directory n
  directory_kept b none = refl
  directory_kept b (some directory) = refl
  directory_kept true (some (file c)) = refl
  directory_kept false (some (file c)) = refl

  pub empty_folder-is_dir :
      (folder p : Place) (d : Disk B)
      → is_dir folder d ≡ true
      → d.refuses folder ≡ false
      → is_dir p (empty_folder folder d).1 ≡ is_dir p d
  unfolding is_dir
  empty_folder-is_dir folder p d h r =
      ap is_directory (empty_folder-lookup folder p d h r)
      ∙ directory_kept (is_in folder p && not (d.refuses p)) (lookup d.nodes p)

  -- Two folders that are there lose all their files, and nothing else changes.
  pub reset_two-lookup :
      (s t p : Place) (d : Disk B)
      → is_dir s d ≡ true
      → is_dir t d ≡ true
      → d.refuses s ≡ false
      → d.refuses t ≡ false
      → lookup (empty_folder t (empty_folder s d).1).1.nodes p
        ≡ without_file ((is_in s p || is_in t p) && not (d.refuses p)) (lookup d.nodes p)
  reset_two-lookup s t p d hs ht rs rt =
      let same = empty_folder-refuses s d in
      empty_folder-lookup t p (empty_folder s d).1 (empty_folder-is_dir s t d hs rs ∙ ht)
        (ap (λ r. r t) same ∙ rt)
      ∙ rw (same, empty_folder-lookup s p d hs rs)
          (without_file-or (is_in s p && not (d.refuses p)) (is_in t p && not (d.refuses p))
              (lookup d.nodes p)
            ∙ ap (λ b. without_file b (lookup d.nodes p)) (ground arith))

  reset_two-returns :
      (x m y n : Word) (a b : Place) (d : Disk B)
      → is_dir (x ∷ m ∷ a) d ≡ true
      → d.refuses (x ∷ m ∷ a) ≡ false
      → is_dir (y ∷ n ∷ b) d ≡ true
      → reset_folders ((x ∷ m ∷ a) ∷ (y ∷ n ∷ b) ∷ []) d
        ≡ (some tt, (empty_folder (y ∷ n ∷ b) (empty_folder (x ∷ m ∷ a) d).1).1)
  unfolding reset_folders
  reset_two-returns x m y n a b d hs rs ht =
      bind_step (reset_folder (x ∷ m ∷ a)) (λ _. reset_folder (y ∷ n ∷ b) >> return tt) d
        (reset_dir_step x m a d hs)
      ∙ bind_step (reset_folder (y ∷ n ∷ b)) (λ _. return tt) (empty_folder (x ∷ m ∷ a) d).1
          (reset_dir_step y n b (empty_folder (x ∷ m ∷ a) d).1
            (empty_folder-is_dir (x ∷ m ∷ a) (y ∷ n ∷ b) d hs rs ∙ ht))

  -- On the abstract view of the disk, which maps a place to what is there: if both folders are
  -- there and can be listed, `logfiles_folder_reset_create` succeeds, takes away exactly the files
  -- that are directly in one of the two folders and may be removed, and changes nothing else.
  pub logfiles_folder_reset_create-lookup :
      (m : Word) (base : Place) (d : Disk B)
      → is_dir (temporary (m ∷ base)) d ≡ true
      → is_dir (working (m ∷ base)) d ≡ true
      → d.refuses (temporary (m ∷ base)) ≡ false
      → d.refuses (working (m ∷ base)) ≡ false
      → (after : Disk B) × (logfiles_folder_reset_create (m ∷ base) d ≡ (some tt, after))
        × (after.refuses ≡ d.refuses)
        × ((p : Place)
            → lookup after.nodes p
              ≡ without_file
                  ((is_in (temporary (m ∷ base)) p || is_in (working (m ∷ base)) p)
                    && not (d.refuses p))
                  (lookup d.nodes p))
  unfolding logfiles_folder_reset_create
  logfiles_folder_reset_create-lookup m base d ht hw rt r =
      let s = temporary (m ∷ base) in
      let t = working (m ∷ base) in
      (
        (empty_folder t (empty_folder s d).1).1,
        reset_two-returns (codes "logs_last_run") m (codes "logs_working_dir") m base base d ht rt
            hw,
        empty_folder-refuses t (empty_folder s d).1 ∙ empty_folder-refuses s d,
        λ p. reset_two-lookup s t p d ht hw rt r,
      )
