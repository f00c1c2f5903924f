-- ===== src/Logfiles/Emptied.antt =====
-- What emptying one folder does to each place.
use org_muhkuh_tools_flasher.Common.{
  ◌≡◌, refl, sym, ◌∙◌, ap, Bool, true, false, not, ◌&&◌, ◌||◌, Option, none, some, List, [], ◌∷◌,
  if◌then◌else◌, arith, Bool-cases, Option-cases, inl, inr,
}
use org_muhkuh_tools_flasher.Common.Words.{Word}
use org_muhkuh_tools_flasher.Files.{
  Place, eq_place, has, Node, directory, file, Disk, is_file, is_dir, lookup, names_in, listdir,
  remove,
}
use org_muhkuh_tools_flasher.Files.Laws.{eq_place_refl, eq_place-eq, lookup-delete, names_in-lookup}
use org_muhkuh_tools_flasher.Logfiles.{remove_files, remove_listed, empty_folder}

-- The place is one of the names in the folder.
abbrev pub listed : Place → List Word → Place → Bool
listed folder names [] = false
listed folder names (x ∷ q) = eq_place folder q && has x names

-- The place is directly in the folder.
abbrev pub is_in : Place → Place → Bool
is_in folder [] = false
is_in folder (x ∷ q) = eq_place folder q

either :
    (folder : Place) (f : Word) (fs : List Word) (p : Place) (r : Bool)
    → (eq_place (f ∷ folder) p && not r || listed folder fs p && not r)
      ≡ (listed folder (f ∷ fs) p && not r)
either folder f fs [] r = ground arith
either folder f fs (x ∷ q) r = ground arith

listed_elsewhere :
    (folder : Place) (names : List Word) (p : Place)
    → is_in folder p ≡ false
    → listed folder names p ≡ false
listed_elsewhere folder names [] h = refl
listed_elsewhere folder names (x ∷ q) h = ground arith

module _ {B : Type 0} where
  abbrev pub without_file : Bool → Option (Node B) → Option (Node B)
  without_file b none = none
  without_file b (some directory) = some directory
  without_file b (some (file c)) = if b then none else some (file c)

  pub without_file-false : (n : Option (Node B)) → without_file false n ≡ n
  without_file-false none = refl
  without_file-false (some directory) = refl
  without_file-false (some (file c)) = refl

  pub without_file-or :
      (a b : Bool) (n : Option (Node B))
      → without_file b (without_file a n) ≡ without_file (a || b) n
  without_file-or a b none = refl
  without_file-or a b (some directory) = refl
  without_file-or true b (some (file c)) = refl
  without_file-or false b (some (file c)) = refl

  data Found (o : Option (Node B)) : Type 0 where
    no_file : is_file o ≡ false → ((b : Bool) → without_file b o ≡ o) → Found o
    a_file : (c : B) → o ≡ some (file c) → Found o

  found : (o : Option (Node B)) → Found o
  found none = no_file refl (λ _. refl)
  found (some directory) = no_file refl (λ _. refl)
  found (some (file c)) = a_file c refl

  remove_self :
      (q : Place) (d : Disk B)
      → lookup (remove q d).1.nodes q ≡ without_file (not (d.refuses q)) (lookup d.nodes q)
  unfolding remove
  remove_self q d = elim (found (lookup d.nodes q)) [
    | no_file n w ↦ rw (n, w (not (d.refuses q))) refl
    | a_file c e ↦ elim (Bool-cases (d.refuses q)) [
      | inl r ↦ rw (e, r, e) refl
      | inr r ↦ rw (e, r, lookup-delete d.nodes q q, eq_place_refl q) refl
    ]
  ]

  remove_other :
      (q p : Place) (d : Disk B)
      → eq_place q p ≡ false
      → lookup (remove q d).1.nodes p ≡ lookup d.nodes p
  unfolding remove
  remove_other q p d o = elim (Bool-cases (is_file (lookup d.nodes q))) [
    | inl f ↦ elim (Bool-cases (d.refuses q)) [
      | inl r ↦ rw (f, r) refl
      | inr r ↦ rw (f, r, lookup-delete d.nodes q p, o) refl
    ]
    | inr f ↦ rw f refl
  ]

  remove-lookup :
      (q p : Place) (d : Disk B)
      → lookup (remove q d).1.nodes p
        ≡ without_file (eq_place q p && not (d.refuses p)) (lookup d.nodes p)
  remove-lookup q p d = elim (Bool-cases (eq_place q p)) [
    | inl e ↦ rw (e, eq_place-eq q p e) (remove_self p d)
    | inr e ↦ rw e (remove_other q p d e ∙ sym (without_file-false (lookup d.nodes p)))
  ]

  remove-refuses : (q : Place) (d : Disk B) → (remove q d).1.refuses ≡ d.refuses
  unfolding remove
  remove-refuses q d = ground arith

  pub remove_files-lookup :
      (folder : Place) (names : List Word) (p : Place) (d : Disk B)
      → lookup (remove_files folder names d).1.nodes p
        ≡ without_file (listed folder names p && not (d.refuses p)) (lookup d.nodes p)
  unfolding remove_files
  remove_files-lookup folder [] [] d = sym (without_file-false (lookup d.nodes []))
  remove_files-lookup folder [] (x ∷ q) d = elim (Bool-cases (eq_place folder q)) [
    | inl e ↦ rw e (sym (without_file-false (lookup d.nodes (x ∷ q))))
    | inr e ↦ rw e (sym (without_file-false (lookup d.nodes (x ∷ q))))
  ]
  remove_files-lookup folder (f ∷ fs) p d =
      remove_files-lookup folder fs p (remove (f ∷ folder) d).1
      ∙ rw (remove-refuses (f ∷ folder) d, remove-lookup (f ∷ folder) p d)
          (without_file-or (eq_place (f ∷ folder) p && not (d.refuses p))
              (listed folder fs p && not (d.refuses p)) (lookup d.nodes p)
            ∙ ap (λ b. without_file b (lookup d.nodes p)) (either folder f fs p (d.refuses p)))

  pub remove_files-refuses :
      (folder : Place) (names : List Word) (d : Disk B)
      → (remove_files folder names d).1.refuses ≡ d.refuses
  unfolding remove_files
  remove_files-refuses folder [] d = refl
  remove_files-refuses folder (f ∷ fs) d =
      remove_files-refuses folder fs (remove (f ∷ folder) d).1 ∙ remove-refuses (f ∷ folder) d

  pub remove_files-returns :
      (folder : Place) (names : List Word) (d : Disk B) → (remove_files folder names d).0 ≡ some tt
  unfolding remove_files
  remove_files-returns folder [] d = refl
  remove_files-returns folder (f ∷ fs) d = remove_files-returns folder fs (remove (f ∷ folder) d).1

  -- All files of a folder go that may be removed, also those that are listed as such.
  pub empty_folder-lookup :
      (folder p : Place) (d : Disk B)
      → is_dir folder d ≡ true
      → d.refuses folder ≡ false
      → lookup (empty_folder folder d).1.nodes p
        ≡ without_file (is_in folder p && not (d.refuses p)) (lookup d.nodes p)
  unfolding empty_folder listdir
  empty_folder-lookup folder p d i r =
      rw (i, r) (remove_files-lookup folder (names_in d.nodes folder) p d ∙ complete p)
    where
      complete :
          (p : Place)
          → without_file
              (listed folder (names_in d.nodes folder) p && not (d.refuses p))
              (lookup d.nodes p)
            ≡ without_file (is_in folder p && not (d.refuses p)) (lookup d.nodes p)
      complete [] = refl
      complete (x ∷ q) = elim (Bool-cases (eq_place folder q)) [
        | inr e ↦ rw e refl
        | inl e ↦ elim (Option-cases (lookup d.nodes (x ∷ q))) [
          | inl n ↦ rw n refl
          | inr (n, m) ↦
              rw
                (
                  e,
                  names_in-lookup d.nodes folder x n
                      (ap (λ l. lookup d.nodes (x ∷ l)) (eq_place-eq folder q e) ∙ m),
                )
                refl
        ]
      ]

  pub empty_folder-returns : (folder : Place) (d : Disk B) → (empty_folder folder d).0 ≡ some tt
  unfolding empty_folder
  empty_folder-returns folder d = elim (Option-cases (listdir folder d).0) [
    | inl e ↦ rw (e, remove_listed) refl
    | inr (names, e) ↦ rw (e, remove_listed) (remove_files-returns folder names d)
  ]

  pub empty_folder-refuses :
      (folder : Place) (d : Disk B) → (empty_folder folder d).1.refuses ≡ d.refuses
  unfolding empty_folder
  empty_folder-refuses folder d = elim (Option-cases (listdir folder d).0) [
    | inl e ↦ rw (e, remove_listed) refl
    | inr (names, e) ↦ rw (e, remove_listed) (remove_files-refuses folder names d)
  ]

  pub empty_folder-other :
      (folder p : Place) (d : Disk B)
      → is_in folder p ≡ false
      → lookup (empty_folder folder d).1.nodes p ≡ lookup d.nodes p
  unfolding empty_folder
  empty_folder-other folder p d h = elim (Option-cases (listdir folder d).0) [
    | inl e ↦ rw (e, remove_listed) refl
    | inr (names, e) ↦
        rw (e, remove_listed)
          (remove_files-lookup folder names p d
            ∙ rw (listed_elsewhere folder names p h) (without_file-false (lookup d.nodes p)))
  ]
