-- ===== src/Env/Installation.antt =====
-- The installation of the flasher: `runInstallation` and what it calls, with extractTarGz, extractZip and
-- copyfileByWildcard of simpelTools/src/filetools.py.
pub mod Installed
pub mod Steps
pub mod Returns
mod Tests
use org_muhkuh_tools_flasher.Common.{
  ℕ, Bool, true, false, not, ◌&&◌, Option, none, some, List, [], ◌∷◌, ◌++◌, ◌==◌, if◌then◌else◌,
}
use org_muhkuh_tools_flasher.Common.Io.{Io, ◌>>=◌, ◌>>◌, return, raise, gets}
use org_muhkuh_tools_flasher.Common.Words.{Word, codes}
use org_muhkuh_tools_flasher.Common.Paths.{join}
use org_muhkuh_tools_flasher.Carriers.System.{World, on_rest}

-- The operations, on a state of any type, and the members of an archive. A relative path starts at the working
-- directory, which is the first argument; `chdir` gives the new one.
pub record InstallSystem (R M : Type 0) : Type 0 where
  pub chdir : Word → Word → R → Option Word
  pub open_tar : Word → Word → Io R (List M)
  pub extract_member : Word → M → Io R Unit
  pub extract_all : Word → Word → Word → Io R Unit
  pub glob : Word → Word → R → List Word
  pub copy : Word → Word → Word → Io R Unit

-- `self.os`, whether `platform.system()` is 'Linux', and the attributes of `self.ref_flash` that the
-- installation reads.
pub record Reference : Type 0 where
  pub is_linux : Bool
  pub on_linux : Bool
  pub linux_version : Word
  pub machine : Word
  pub flasher_version : Word
  pub base_root : Word
  pub apply_romloader_patch : Bool

abbrev pub flasher_folder : Reference → Word
unfolding join
flasher_folder r = join r.base_root (codes "flasher_cli-" ++ r.flasher_version)

abbrev pub tar_flasher : Reference → Word
unfolding join
tar_flasher r = join r.base_root (codes "flasher_cli-" ++ r.flasher_version ++ codes ".tar.gz")

unfoldable pub gen_name_flasher_archive : Reference → Bool → Word
gen_name_flasher_archive r force32 =
    let machine = if force32 then codes "x86" else r.machine in
    if r.is_linux
    then codes "flasher_cli-"
      ++ r.flasher_version
      ++ codes "-ubuntu"
      ++ r.linux_version
      ++ b'_' ∷ (machine ++ codes ".tar.gz")
    else codes "flasher_cli-" ++ r.flasher_version ++ codes "-windows_" ++ machine ++ codes ".zip"

-- `set_path_flasher_binary`
unfoldable pub path_lua_binary : Reference → Word
unfolding join flasher_folder
path_lua_binary r =
    join (flasher_folder r) (if r.is_linux then codes "lua5.1.sh" else codes "lua5.1.exe")

-- `try` with an `except` that leaves the state as it is then.
unfoldable pub caught : {R : Type 0} → Option (Unit {0}) × R → Option Bool × R
caught (none, s) = (some false, s)
caught (some u, s) = (some true, s)

module _ {R M : Type 0} (sys : InstallSystem R M) where
  unfoldable pub entered : Option Word → Io (World R) Unit
  entered none w = (none, w)
  entered (some cwd) w = (some tt, record w { cwd = cwd })

  unfoldable pub change_directory : Word → Io (World R) Unit
  unfolding entered
  change_directory path w = entered (sys.chdir w.cwd path w.rest) w

  unfoldable pub extract_members : Word → List M → Io (World R) Unit
  unfolding ◌>>=◌
  extract_members cwd [] = return tt
  extract_members cwd (m ∷ ms) = do on_rest (sys.extract_member cwd m); extract_members cwd ms

  -- An exception leaves the working directory in the target folder.
  unfoldable pub extract_tar_gz : Word → Word → Io (World R) Unit
  unfolding change_directory extract_members ◌>>=◌
  extract_tar_gz archive folder = do
    old ← gets (λ w. w.cwd)
    change_directory folder
    cwd ← gets (λ w. w.cwd)
    members ← on_rest (sys.open_tar cwd archive)
    extract_members cwd members
    change_directory old

  unfoldable pub extract_zip : Word → Word → Io (World R) Unit
  unfolding ◌>>=◌
  extract_zip archive folder = do
    cwd ← gets (λ w. w.cwd)
    on_rest (sys.extract_all cwd archive folder)

  -- `try: shutil.copy(...)`, with whether it worked.
  unfoldable pub try_copy : Word → Word → Word → Io R Bool
  unfolding caught
  try_copy cwd source target r = caught (sys.copy cwd source target r)

  -- The loop ends at the first file that cannot be copied, with 56.
  unfoldable pub copy_files : Word → Word → List Word → Io R ℕ
  unfolding try_copy ◌>>=◌
  copy_files cwd target [] = return 0
  copy_files cwd target (name ∷ names) = do
    worked ← try_copy cwd name target
    if worked then copy_files cwd target names else return 56

  unfoldable pub copyfile_by_wildcard : Word → Word → Io (World R) ℕ
  unfolding copy_files ◌>>=◌
  copyfile_by_wildcard wildcard target = do
    w ← gets (λ w. w)
    on_rest (copy_files w.cwd target (sys.glob w.cwd wildcard w.rest))

  module _ (r : Reference) where
    unfoldable pub apply_test_romloader : Io (World R) Unit
    unfolding copyfile_by_wildcard flasher_folder join ◌>>=◌
    apply_test_romloader = do
      err ←
          copyfile_by_wildcard (join (join r.base_root (codes "netxbins")) (codes "montest_*.bin"))
            (join (flasher_folder r) (codes "netx"))
      cwd ← gets (λ w. w.cwd)
      if err == 0
          then on_rest
              (sys.copy cwd (join r.base_root (codes "test_romloader.lua")) (flasher_folder r))
          else raise

    unfoldable pub install_flasher_version_unpack : Word → Io (World R) Unit
    unfolding extract_tar_gz extract_zip
    install_flasher_version_unpack archive =
        if r.is_linux then extract_tar_gz archive r.base_root else extract_zip archive r.base_root

    -- It is no longer supported: the first statement raises.
    unfoldable pub install_romloader_plugin : Io (World R) ℕ
    install_romloader_plugin = raise

    unfoldable pub when : Bool → Io (World R) Unit → Io (World R) Unit
    when true m = m
    when false m = return tt

    unfoldable pub patch : Bool → Io (World R) ℕ
    unfolding install_romloader_plugin
    patch true = install_romloader_plugin
    patch false = return 0

    -- Linux takes no 32 bits.
    unfoldable pub run_installation : Bool → Bool → Io (World R) ℕ
    unfolding install_flasher_version_unpack apply_test_romloader extract_tar_gz
        gen_name_flasher_archive tar_flasher when patch ◌>>=◌
    run_installation force32 apply_romloader_test = do
      extract_tar_gz (tar_flasher r) r.base_root
      install_flasher_version_unpack (gen_name_flasher_archive r (force32 && not r.on_linux))
      when apply_romloader_test apply_test_romloader
      patch r.apply_romloader_patch
