-- ===== src/Env/Installation/Returns.antt =====
-- On a system whose operations succeed, the installation returns.
use org_muhkuh_tools_flasher.Common.{
  ℕ, ◌≡◌, refl, sym, subst, ◌∙◌, ap, Bool, true, false, not, ◌&&◌, ◌==◌, some, List, [], ◌∷◌,
  if◌then◌else◌,
}
use org_muhkuh_tools_flasher.Common.Io.{
  Io, ◌>>=◌, ◌>>◌, return, raise, gets, Yields, bind-Yields, return-Yields,
}
use org_muhkuh_tools_flasher.Common.Words.{Word, codes}
use org_muhkuh_tools_flasher.Common.Paths.{join}
use org_muhkuh_tools_flasher.Carriers.System.{World, on_rest}
use org_muhkuh_tools_flasher.Env.Installation.{
  InstallSystem, Reference, flasher_folder, tar_flasher, gen_name_flasher_archive, caught, try_copy,
  entered, change_directory, extract_members, extract_tar_gz, extract_zip, copy_files,
  copyfile_by_wildcard, apply_test_romloader, install_flasher_version_unpack, when, patch,
  run_installation,
}
use org_muhkuh_tools_flasher.Env.Installation.Installed.{IsUnpacked}
use org_muhkuh_tools_flasher.Env.Installation.Steps.{IsUnpackedFor, run_installation-IsUnpacked}

abbrev Any : {A : Type 0} → A → Type 0
Any a = Unit

gets-Yields : {W A : Type 0} (f : W → A) → Yields Any (gets f)
gets-Yields f w = (f w, w, refl, tt)

on_rest-Yields :
    {R A : Type 0} (holds : A → Type 0) (m : Io R A) → Yields holds m → Yields holds (on_rest m)
on_rest-Yields holds m y w = let (a, r, e, h) = y w.rest in (a, record w { rest = r }, rw e refl, h)

-- Each operation succeeds from every state.
pub record InstallWorks {R M : Type 0} (sys : InstallSystem R M) : Type 0 where
  pub enters : (here path : Word) (r : R) → (there : Word) × (sys.chdir here path r ≡ some there)
  pub opens : (here path : Word) → Yields Any (sys.open_tar here path)
  pub extracts : (here : Word) (m : M) → Yields Any (sys.extract_member here m)
  pub unzips : (here archive folder : Word) → Yields Any (sys.extract_all here archive folder)
  pub copies : (here source target : Word) → Yields Any (sys.copy here source target)

module _ {R M : Type 0} (sys : InstallSystem R M) (works : InstallWorks sys) where
  change_directory-Yields : (path : Word) → Yields Any (change_directory sys path)
  unfolding change_directory entered
  change_directory-Yields path w =
      let (there, e) = works.enters w.cwd path w.rest in
      (tt, record w { cwd = there }, rw e refl, tt)

  extract_members-Yields : (cwd : Word) (ms : List M) → Yields Any (extract_members sys cwd ms)
  unfolding extract_members
  extract_members-Yields cwd [] = return-Yields Any tt tt
  extract_members-Yields cwd (m ∷ ms) =
      bind-Yields Any Any (on_rest (sys.extract_member cwd m)) (λ _. extract_members sys cwd ms)
        (on_rest-Yields Any (sys.extract_member cwd m) (works.extracts cwd m))
        (λ _ _. extract_members-Yields cwd ms)

  extract_tar_gz-Yields : (archive folder : Word) → Yields Any (extract_tar_gz sys archive folder)
  unfolding extract_tar_gz
  extract_tar_gz-Yields archive folder =
      bind-Yields Any Any (gets (λ (w : World R). w.cwd))
        (λ old. change_directory sys folder >> unpack old) (gets-Yields (λ (w : World R). w.cwd))
        (λ old _.
          bind-Yields Any Any (change_directory sys folder) (λ _. unpack old)
            (change_directory-Yields folder)
            (λ _ _.
              bind-Yields Any Any (gets (λ (w : World R). w.cwd))
                (λ cwd. on_rest (sys.open_tar cwd archive) >>= leave old cwd)
                (gets-Yields (λ (w : World R). w.cwd))
                (λ cwd _.
                  bind-Yields Any Any (on_rest (sys.open_tar cwd archive)) (leave old cwd)
                    (on_rest-Yields Any (sys.open_tar cwd archive) (works.opens cwd archive))
                    (λ members _.
                      bind-Yields Any Any (extract_members sys cwd members)
                        (λ _. change_directory sys old) (extract_members-Yields cwd members)
                        (λ _ _. change_directory-Yields old)))))
    where
      leave : Word → Word → List M → Io (World R) Unit
      leave old cwd members = extract_members sys cwd members >> change_directory sys old

      unpack : Word → Io (World R) Unit
      unpack old = gets (λ (w : World R). w.cwd) >>= λ cwd.
          on_rest (sys.open_tar cwd archive) >>= leave old cwd

  extract_zip-Yields : (archive folder : Word) → Yields Any (extract_zip sys archive folder)
  unfolding extract_zip
  extract_zip-Yields archive folder =
      bind-Yields Any Any (gets (λ (w : World R). w.cwd))
        (λ cwd. on_rest (sys.extract_all cwd archive folder)) (gets-Yields (λ (w : World R). w.cwd))
        (λ cwd _.
          on_rest-Yields Any (sys.extract_all cwd archive folder) (works.unzips cwd archive folder))

  try_copy-Yields :
      (cwd source target : Word) → Yields (λ b. b ≡ true) (try_copy sys cwd source target)
  unfolding try_copy caught
  try_copy-Yields cwd source target r =
      let (_, s, e, _) = works.copies cwd source target r in (true, s, rw e refl, refl)

  copy_files-Yields :
      (cwd target : Word) (names : List Word)
      → Yields (λ n. n ≡ 0) (copy_files sys cwd target names)
  unfolding copy_files
  copy_files-Yields cwd target [] = return-Yields (λ n. n ≡ 0) 0 refl
  copy_files-Yields cwd target (name ∷ names) =
      bind-Yields (λ b. b ≡ true) (λ n. n ≡ 0) (try_copy sys cwd name target)
        (λ worked. if worked then copy_files sys cwd target names else return 56)
        (try_copy-Yields cwd name target)
        (λ b h.
          subst
            (λ b. Yields (λ n. n ≡ 0) (if b then copy_files sys cwd target names else return 56))
            (sym h) (copy_files-Yields cwd target names))

  copyfile_by_wildcard-Yields :
      (wildcard target : Word) → Yields (λ n. n ≡ 0) (copyfile_by_wildcard sys wildcard target)
  unfolding copyfile_by_wildcard
  copyfile_by_wildcard-Yields wildcard target =
      bind-Yields Any (λ n. n ≡ 0) (gets (λ (w : World R). w))
        (λ w. on_rest (copy_files sys w.cwd target (sys.glob w.cwd wildcard w.rest)))
        (gets-Yields (λ (w : World R). w))
        (λ w _.
          on_rest-Yields (λ n. n ≡ 0) (copy_files sys w.cwd target (sys.glob w.cwd wildcard w.rest))
            (copy_files-Yields w.cwd target (sys.glob w.cwd wildcard w.rest)))

  module _ (r : Reference) where
    copy_test : ℕ → Word → Io (World R) Unit
    copy_test err cwd =
        if err == 0
        then on_rest
            (sys.copy cwd (join r.base_root (codes "test_romloader.lua")) (flasher_folder r))
        else raise

    copy_test-Yields : (n : ℕ) (cwd : Word) → n ≡ 0 → Yields Any (copy_test n cwd)
    unfolding copy_test
    copy_test-Yields n cwd h =
        subst
          (λ k. Yields Any (
            if k == 0
            then on_rest
                (sys.copy cwd (join r.base_root (codes "test_romloader.lua")) (flasher_folder r))
            else raise))
          (sym h)
          (on_rest-Yields Any
            (sys.copy cwd (join r.base_root (codes "test_romloader.lua")) (flasher_folder r))
            (works.copies cwd (join r.base_root (codes "test_romloader.lua")) (flasher_folder r)))

    apply_test_romloader-Yields : Yields Any (apply_test_romloader sys r)
    unfolding apply_test_romloader copy_test
    apply_test_romloader-Yields =
        bind-Yields (λ n. n ≡ 0) Any
          (copyfile_by_wildcard sys
            (join (join r.base_root (codes "netxbins")) (codes "montest_*.bin"))
            (join (flasher_folder r) (codes "netx")))
          (λ err. gets (λ (w : World R). w.cwd) >>= copy_test err)
          (copyfile_by_wildcard-Yields
            (join (join r.base_root (codes "netxbins")) (codes "montest_*.bin"))
            (join (flasher_folder r) (codes "netx")))
          (λ err h.
            bind-Yields Any Any (gets (λ (w : World R). w.cwd)) (copy_test err)
              (gets-Yields (λ (w : World R). w.cwd)) (λ cwd _. copy_test-Yields err cwd h))

    when-Yields : (b : Bool) → Yields Any (when sys r b (apply_test_romloader sys r))
    unfolding when
    when-Yields true = apply_test_romloader-Yields
    when-Yields false = return-Yields Any tt tt

    unpack-Yields :
        (linux : Bool) (archive : Word)
        → Yields Any (
            if linux
            then extract_tar_gz sys archive r.base_root
            else extract_zip sys archive r.base_root)
    unpack-Yields true archive = extract_tar_gz-Yields archive r.base_root
    unpack-Yields false archive = extract_zip-Yields archive r.base_root

    patch-Yields : (b : Bool) → b ≡ false → Yields Any (patch sys r b)
    unfolding patch
    patch-Yields b h = subst (λ b. Yields Any (patch sys r b)) (sym h) (return-Yields Any 0 tt)

    run_installation-Yields :
        (force32 romloader : Bool)
        → r.apply_romloader_patch ≡ false
        → Yields Any (run_installation sys r force32 romloader)
    unfolding run_installation install_flasher_version_unpack
    run_installation-Yields force32 romloader h =
        let archive = gen_name_flasher_archive r (force32 && not r.on_linux) in
        bind-Yields Any Any (extract_tar_gz sys (tar_flasher r) r.base_root)
          (λ _.
            install_flasher_version_unpack sys r archive
            >> (when sys r romloader (apply_test_romloader sys r)
                >> patch sys r r.apply_romloader_patch))
          (extract_tar_gz-Yields (tar_flasher r) r.base_root)
          (λ _ _.
            bind-Yields Any Any (install_flasher_version_unpack sys r archive)
              (λ _.
                when sys r romloader (apply_test_romloader sys r)
                >> patch sys r r.apply_romloader_patch)
              (unpack-Yields r.is_linux archive)
              (λ _ _.
                bind-Yields Any Any (when sys r romloader (apply_test_romloader sys r))
                  (λ _. patch sys r r.apply_romloader_patch) (when-Yields romloader)
                  (λ _ _. patch-Yields r.apply_romloader_patch h)))

    -- If each operation of the system succeeds, the path of the working directory leads to itself
    -- and no patch of the romloader is asked for, `runInstallation` returns 0: all members of the
    -- archive of the flasher were extracted in the root folder, then the archive of the operating
    -- system was unpacked, on Windows from a path that starts at the working directory, which is
    -- as before.
    pub run_installation-returns :
        (force32 romloader : Bool) (w : World R)
        → r.apply_romloader_patch ≡ false
        → ((c : Word) (s : R) → sys.chdir c w.cwd s ≡ some w.cwd)
        → (u x v : World R) × (run_installation sys r force32 romloader w ≡ (some 0, v))
          × IsUnpacked sys (tar_flasher r) r.base_root w u
          × IsUnpackedFor sys r r.is_linux
              (gen_name_flasher_archive r (force32 && not r.on_linux))
              u
              x
          × (x.cwd ≡ w.cwd)
          × (v.cwd ≡ w.cwd)
    run_installation-returns force32 romloader w h back =
        let (n, v, e, _) = run_installation-Yields force32 romloader h w in
        let (u, x, first, second, still, home, _, zero_) =
          run_installation-IsUnpacked sys r force32 romloader n w v back e in
        (u, x, v, e ∙ ap (λ n. (some n, v)) zero_, first, second, still, home)
