-- ===== src/Env/Installation/Tests.antt =====
-- An installation on Linux and one on Windows; the state lists what was done.
use org_muhkuh_tools_flasher.Common.{◌≡◌, refl, true, false, some, List, [], ◌∷◌, ◌++◌}
use org_muhkuh_tools_flasher.Common.Io.{Io}
use org_muhkuh_tools_flasher.Common.Words.{Word, codes}
use org_muhkuh_tools_flasher.Carriers.System.{World}
use org_muhkuh_tools_flasher.Env.Installation.{
  InstallSystem, Reference, tar_flasher, gen_name_flasher_archive, run_installation,
}
use org_muhkuh_tools_flasher.Env.Installation.Installed.{IsUnpacked}
use org_muhkuh_tools_flasher.Env.Installation.Steps.{IsUnpackedFor}
use org_muhkuh_tools_flasher.Env.Installation.Returns.{InstallWorks, run_installation-returns}

abbrev noted : Word → Io (List Word) Unit
noted w log = (some tt, log ++ w ∷ [])

abbrev system : InstallSystem (List Word) Word
system = record {
  chdir = λ old path log. some path;
  open_tar = λ cwd archive log. (some (codes "cli" ∷ []), log ++ archive ∷ []);
  extract_member = λ cwd m. noted m;
  extract_all = λ cwd archive folder. noted archive;
  glob = λ cwd wildcard log. codes "montest_1.bin" ∷ [];
  copy = λ cwd source target. noted source;
}

abbrev linux : Reference
linux = record {
  is_linux = true;
  on_linux = true;
  linux_version = codes "18.04";
  machine = codes "x86_64";
  flasher_version = codes "1.6";
  base_root = codes "/b";
  apply_romloader_patch = false;
}

abbrev home : World (List Word)
home = record { cwd = codes "/h"; rest = [] }

abbrev installed : World (List Word)
installed = record {
  cwd = codes "/h";
  rest =
      codes "/b/flasher_cli-1.6.tar.gz"
      ∷ codes "cli"
      ∷ codes "flasher_cli-1.6-ubuntu18.04_x86_64.tar.gz"
      ∷ codes "cli"
      ∷ codes "montest_1.bin"
      ∷ codes "/b/test_romloader.lua"
      ∷ [];
}

linux_run : run_installation system linux true true home ≡ (some 0, installed)
unfolding run_installation
linux_run = refl

system-Works : InstallWorks system
system-Works = record {
  enters = λ here path r. (path, refl);
  opens = λ here path r. (codes "cli" ∷ [], r ++ path ∷ [], refl, tt);
  extracts = λ here m r. (tt, r ++ m ∷ [], refl, tt);
  unzips = λ here archive folder r. (tt, r ++ archive ∷ [], refl, tt);
  copies = λ here source target r. (tt, r ++ source ∷ [], refl, tt);
}

run_installation-returns_example :
    (u x v : World (List Word)) × (run_installation system linux true true home ≡ (some 0, v))
    × IsUnpacked system (tar_flasher linux) (codes "/b") home u
    × IsUnpackedFor system linux true (gen_name_flasher_archive linux false) u x
    × (x.cwd ≡ home.cwd)
    × (v.cwd ≡ home.cwd)
run_installation-returns_example =
    run_installation-returns system system-Works linux true true home refl (λ c s. refl)

-- On Windows the second archive is opened in the working directory.
windows_run :
    (run_installation system
      (record linux { is_linux = false; on_linux = false })
      false
      false
      home).0
    ≡ some 0
unfolding run_installation
windows_run = refl
