-- ===== src/Env/Installation/Steps.antt =====
-- `runInstallation`, when it returns.
use org_muhkuh_tools_flasher.Common.{
  ℕ, ◌≡◌, refl, sym, subst, ◌∙◌, ap, Bool, true, false, not, ◌&&◌, ◌==◌, Option, some,
  if◌then◌else◌, some-injective,
}
use org_muhkuh_tools_flasher.Common.Io.{
  Io, ◌>>=◌, ◌>>◌, raise, gets, bind_some, result_is, bind_step, raise-return, Keeps, bind-Keeps,
  if-Keeps,
}
use org_muhkuh_tools_flasher.Common.Words.{Word, codes}
use org_muhkuh_tools_flasher.Common.Paths.{join}
use org_muhkuh_tools_flasher.Carriers.System.{World, on_rest}
use org_muhkuh_tools_flasher.Env.Installation.{
  InstallSystem, Reference, flasher_folder, tar_flasher, gen_name_flasher_archive, extract_tar_gz,
  extract_zip, copy_files, copyfile_by_wildcard, apply_test_romloader,
  install_flasher_version_unpack, when, patch, install_romloader_plugin, run_installation,
}
use org_muhkuh_tools_flasher.Env.Installation.Installed.{
  IsUnpacked, extract_tar_gz-IsUnpacked, on_rest-some, on_rest-cwd,
}

module _ {R M : Type 0} (sys : InstallSystem R M) (r : Reference) where
  -- The archive of the operating system: a zip archive is opened in the working directory.
  abbrev pub IsUnpackedFor : Bool → Word → World R → World R → Type 0
  IsUnpackedFor true archive w v = IsUnpacked sys archive r.base_root w v
  IsUnpackedFor false archive w v =
      (sys.extract_all w.cwd archive r.base_root w.rest ≡ (some tt, v.rest)) × (v.cwd ≡ w.cwd)

  extract_zip-some :
      (archive folder : Word) (w v : World R)
      → extract_zip sys archive folder w ≡ (some tt, v)
      → (sys.extract_all w.cwd archive folder w.rest ≡ (some tt, v.rest)) × (v.cwd ≡ w.cwd)
  unfolding extract_zip
  extract_zip-some archive folder w v h =
      let e =
        sym (
          bind_step (gets (λ (u : World R). u.cwd))
            (λ cwd. on_rest (sys.extract_all cwd archive folder)) w refl)
        ∙ h in
      (
        on_rest-some (sys.extract_all w.cwd archive folder) w v e,
        on_rest-cwd (sys.extract_all w.cwd archive folder) w v e,
      )

  unpacked :
      (linux : Bool) (archive : Word) (w v : World R)
      → (if linux
            then extract_tar_gz sys archive r.base_root
            else extract_zip sys archive r.base_root)
          w
        ≡ (some tt, v)
      → IsUnpackedFor linux archive w v
  unpacked true archive w v h = extract_tar_gz-IsUnpacked sys archive r.base_root w v h
  unpacked false archive w v h = extract_zip-some archive r.base_root w v h

  -- The files for the test of the romloader are copied in the same working directory.
  copyfile_by_wildcard-Keeps :
      (wildcard target c : Word)
      → Keeps (λ (u : World R). u.cwd ≡ c) (copyfile_by_wildcard sys wildcard target)
  unfolding copyfile_by_wildcard
  copyfile_by_wildcard-Keeps wildcard target c =
      bind-Keeps (λ (u : World R). u.cwd ≡ c) (gets (λ (w : World R). w))
        (λ (w : World R). on_rest (copy_files sys w.cwd target (sys.glob w.cwd wildcard w.rest)))
        (λ w h. h) (λ a w h. h)

  copy_test : ℕ → Word → Io (World R) Unit
  copy_test err cwd =
      if err == 0
      then on_rest (sys.copy cwd (join r.base_root (codes "test_romloader.lua")) (flasher_folder r))
      else raise

  apply_test_romloader-Keeps :
      (c : Word) → Keeps (λ (u : World R). u.cwd ≡ c) (apply_test_romloader sys r)
  unfolding apply_test_romloader copy_test
  apply_test_romloader-Keeps c =
      bind-Keeps (λ (u : World R). u.cwd ≡ c)
        (copyfile_by_wildcard sys
          (join (join r.base_root (codes "netxbins")) (codes "montest_*.bin"))
          (join (flasher_folder r) (codes "netx")))
        (λ err. gets (λ (w : World R). w.cwd) >>= copy_test err)
        (copyfile_by_wildcard-Keeps
          (join (join r.base_root (codes "netxbins")) (codes "montest_*.bin"))
          (join (flasher_folder r) (codes "netx")) c)
        (λ err.
          bind-Keeps (λ (u : World R). u.cwd ≡ c) (gets (λ (w : World R). w.cwd)) (copy_test err)
            (λ w h. h)
            (λ cwd.
              if-Keeps (λ (u : World R). u.cwd ≡ c) (err == 0)
                (on_rest
                  (sys.copy cwd (join r.base_root (codes "test_romloader.lua")) (flasher_folder r)))
                raise (λ w h. h) (λ w h. h)))

  when-Keeps :
      (b : Bool) (c : Word)
      → Keeps (λ (u : World R). u.cwd ≡ c) (when sys r b (apply_test_romloader sys r))
  unfolding when
  when-Keeps true c = apply_test_romloader-Keeps c
  when-Keeps false c = λ w h. h

  patch-some :
      (b : Bool) (n : ℕ) (w v : World R)
      → patch sys r b w ≡ (some n, v)
      → (b ≡ false) × (n ≡ 0) × (v ≡ w)
  unfolding patch install_romloader_plugin
  patch-some true n w v h = absurd (raise-return h)
  patch-some false n w v h = let (a, b) = result_is h in (refl, sym a, sym b)

  tar-cwd :
      (archive folder : Word) (w v : World R)
      → ((c : Word) (s : R) → sys.chdir c w.cwd s ≡ some w.cwd)
      → IsUnpacked sys archive folder w v
      → v.cwd ≡ w.cwd
  tar-cwd archive folder w v back i =
      some-injective v.cwd w.cwd (sym i.leaves ∙ back i.inside v.rest)

  for-cwd :
      (linux : Bool) (archive : Word) (w v : World R)
      → ((c : Word) (s : R) → sys.chdir c w.cwd s ≡ some w.cwd)
      → IsUnpackedFor linux archive w v
      → v.cwd ≡ w.cwd
  for-cwd true archive w v back i = tar-cwd archive r.base_root w v back i
  for-cwd false archive w v back (e, c) = c

  -- If the path of the working directory leads to itself and `runInstallation` returns: all
  -- members of the archive of the flasher were extracted in the root folder, then the archive of
  -- the operating system was unpacked, on Windows from a path that starts at the working
  -- directory; the working directory is as before, no patch of the romloader was asked for, and
  -- the result is 0.
  pub run_installation-IsUnpacked :
      (force32 romloader : Bool) (n : ℕ) (w v : World R)
      → ((c : Word) (s : R) → sys.chdir c w.cwd s ≡ some w.cwd)
      → run_installation sys r force32 romloader w ≡ (some n, v)
      → (u x : World R) × IsUnpacked sys (tar_flasher r) r.base_root w u
        × IsUnpackedFor r.is_linux (gen_name_flasher_archive r (force32 && not r.on_linux)) u x
        × (x.cwd ≡ w.cwd)
        × (v.cwd ≡ w.cwd)
        × (r.apply_romloader_patch ≡ false)
        × (n ≡ 0)
  unfolding run_installation install_flasher_version_unpack
  run_installation-IsUnpacked force32 romloader n w v back h =
      let archive = gen_name_flasher_archive r (force32 && not r.on_linux) in
      let (_, u, a, g) =
        bind_some (extract_tar_gz sys (tar_flasher r) r.base_root)
          (λ _.
            install_flasher_version_unpack sys r archive
            >> (when sys r romloader (apply_test_romloader sys r)
                >> patch sys r r.apply_romloader_patch))
          h in
      let (_, x, b, k) =
        bind_some (install_flasher_version_unpack sys r archive)
          (λ _.
            when sys r romloader (apply_test_romloader sys r)
            >> patch sys r r.apply_romloader_patch)
          g in
      let (_, y, c, p) =
        bind_some (when sys r romloader (apply_test_romloader sys r))
          (λ _. patch sys r r.apply_romloader_patch) k in
      let first = extract_tar_gz-IsUnpacked sys (tar_flasher r) r.base_root w u a in
      let second = unpacked r.is_linux archive u x b in
      let home : u.cwd ≡ w.cwd = tar-cwd (tar_flasher r) r.base_root w u back first in
      let still : x.cwd ≡ w.cwd =
        for-cwd r.is_linux archive u x
          (subst (λ d. (c : Word) (s : R) → sys.chdir c d s ≡ some d) (sym home) back) second
        ∙ home in
      let (no_patch, zero_, same) = patch-some r.apply_romloader_patch n y v p in
      let after : y.cwd ≡ w.cwd =
        subst (λ (q : Option _ × World R). q.1.cwd ≡ w.cwd) c
          (when-Keeps romloader w.cwd x still) in
      (u, x, first, second, still, ap (λ (q : World R). q.cwd) same ∙ after, no_patch, zero_)
