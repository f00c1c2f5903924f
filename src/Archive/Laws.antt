-- ===== src/Archive/Laws.antt =====
-- Nothing is unpacked outside of the folder.
use org_muhkuh_tools_flasher.Common.{
  ◌≡◌, inl, inr, sym, true, false, none, List, [], ◌∷◌, ◌++◌, ◌∙◌, All, All-append, arith,
  Bool-cases, Option-cases,
}
use org_muhkuh_tools_flasher.Common.Words.{Word, codes, eq_word, starts_with}
use org_muhkuh_tools_flasher.Common.Paths.{join, abspath, dot_dot}
use org_muhkuh_tools_flasher.Archive.{
  written, leaves, extract_tar, first_invalid, extract_zip, extract_archive,
}
use org_muhkuh_tools_flasher.Archive.Relative.{inside_of_relpath, first_name_of_relpath}

-- The normalised path of the member is that of the folder, and more names.
pub record IsInside (cwd folder name : Word) : Type 0 where
  pub rest : List Word
  pub below : abspath cwd (join folder name) ≡ abspath cwd folder ++ rest

module _ (cwd folder : Word) where
  accepted-IsInside : (name : Word) → leaves cwd folder name ≡ false → IsInside cwd folder name
  unfolding leaves
  accepted-IsInside name h =
      let (rest, e) = inside_of_relpath _ _ h in record { rest = rest; below = e }

  -- A member that lies inside the folder is refused only if the first name of its path below the
  -- folder begins with two dots.
  pub leaves_inside :
      (name : Word)
      → leaves cwd folder name ≡ true
      → (i : IsInside cwd folder name)
      → (w : Word) × (ws : List Word) × (i.rest ≡ w ∷ ws) × (starts_with dot_dot w ≡ true)
  unfolding leaves
  leaves_inside name h i = first_name_of_relpath (abspath cwd folder) i.rest (rw i.below at h)

  tar-IsInside :
      (names out : List Word)
      → All (IsInside cwd folder) out
      → All (IsInside cwd folder) (written (extract_tar cwd folder names out))
  unfolding extract_tar
  tar-IsInside [] out a = a
  tar-IsInside (name ∷ names) out a = elim (Bool-cases (leaves cwd folder name)) [
    | inl bad ↦ rw (bad, extract_tar) a
    | inr good ↦
        rw (good, extract_tar)
          (tar-IsInside names (out ++ name ∷ [])
            (All-append (IsInside cwd folder) out (name ∷ []) a (accepted-IsInside name good, tt)))
  ]

  zip-IsInside :
      (names : List Word) → first_invalid cwd folder names ≡ none → All (IsInside cwd folder) names
  unfolding first_invalid
  zip-IsInside [] h = tt
  zip-IsInside (name ∷ names) h = elim (Bool-cases (leaves cwd folder name)) [
    | inl bad ↦ absurd (ground arith)
    | inr good ↦
        (accepted-IsInside name good, zip-IsInside names (sym (rw (good, first_invalid)) ∙ h))
  ]

  extract_zip-IsInside :
      (names : List Word) → All (IsInside cwd folder) (written (extract_zip cwd folder names))
  unfolding extract_zip
  extract_zip-IsInside names = elim (Option-cases (first_invalid cwd folder names)) [
    | inl fine ↦ rw (fine, extract_zip) (zip-IsInside names fine)
    | inr (name, bad) ↦ rw (bad, extract_zip) tt
  ]

  -- Whatever the format and the members of an archive, also if the function raises: each member
  -- that `__extract_archive` wrote has a normalised path below that of the folder.
  pub extract_archive-IsInside :
      (format : Word) (names : List Word)
      → All (IsInside cwd folder) (written (extract_archive cwd format folder names))
  unfolding extract_archive
  extract_archive-IsInside format names = elim (Bool-cases (eq_word format (codes "tar.gz"))) [
    | inl tar ↦ rw tar (tar-IsInside names [] tt)
    | inr other ↦ elim (Bool-cases (eq_word format (codes "zip"))) [
      | inl zip ↦ rw (other, zip) (extract_zip-IsInside names)
      | inr unknown ↦ rw (other, unknown) tt
    ]
  ]

  -- The first member that leaves the folder, and the members before it.
  pub record FirstInvalid (names pre : List Word) (name : Word) : Type 0 where
    pub post : List Word
    pub split_at : names ≡ pre ++ name ∷ post
    pub refused : leaves cwd folder name ≡ true
    pub kept : All (λ m. leaves cwd folder m ≡ false) pre
