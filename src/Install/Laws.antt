-- ===== src/Install/Laws.antt =====
-- What holds when `install` returns a command.
use org_muhkuh_tools_flasher.Common.{◌≡◌, ap, ◌∙◌, ◌⊎◌, inl, inr, Option, none, some}
use org_muhkuh_tools_flasher.Common.Words.{Word, codes}
use org_muhkuh_tools_flasher.Platform.{Platform, detect_here}
use org_muhkuh_tools_flasher.Install.System.{System}
use org_muhkuh_tools_flasher.Common.Io.{bind_some, or_else-some}
use org_muhkuh_tools_flasher.Install.Steps.{
  check_full, check_light, check_kind, install_archive, install,
}
use org_muhkuh_tools_flasher.Install.Names.{
  Settings, Names, Kind, full, light, names_of, overwritten,
}
use org_muhkuh_tools_flasher.Install.Checked.{IsChecked, check_jonchki_version-IsChecked}

module _ {W : Type 0} (os : System W) where
  -- The full tool, or the light tool with the interpreter, is checked at some state.
  pub IsFound : Settings → Names → Word → W → Type 0
  IsFound settings names cmd v =
      (w : W) × (IsChecked os none names.path names.tool names.version names.cmd_file cmd w v
        ⊎ IsChecked os (some settings.lua_interpreter) names.light_path names.light_tool
            names.version names.cmd_file cmd w v)

  full-IsFound :
      (settings : Settings) (names : Names) (cmd : Word) (w v : W)
      → check_full os settings names w ≡ (some (some cmd), v)
      → IsFound settings names cmd v
  unfolding check_full IsFound
  full-IsFound settings names cmd w v e = (
    w,
    inl (
        check_jonchki_version-IsChecked os none names.path names.tool names.version names.cmd_file
          cmd w v e),
  )

  light-IsFound :
      (settings : Settings) (names : Names) (cmd : Word) (w v : W)
      → check_light os settings names w ≡ (some (some cmd), v)
      → IsFound settings names cmd v
  unfolding check_light IsFound
  light-IsFound settings names cmd w v e = (
    w,
    inr (
        check_jonchki_version-IsChecked os (some settings.lua_interpreter) names.light_path
          names.light_tool names.version names.cmd_file cmd w v e),
  )

  kind-IsFound :
      (kind : Kind) (settings : Settings) (names : Names) (cmd : Word) (w v : W)
      → check_kind os kind settings names w ≡ (some (some cmd), v)
      → IsFound settings names cmd v
  unfolding check_kind
  kind-IsFound full = full-IsFound
  kind-IsFound light = light-IsFound

  archive-IsFound :
      (settings : Settings) (platform : Platform) (names : Names) (cmd : Word) (w v : W)
      → install_archive os settings platform names w ≡ (some (some cmd), v)
      → IsFound settings names cmd v
  unfolding install_archive
  archive-IsFound settings platform names cmd w v e =
      let (files, w1, _, e1) = bind_some _ _ e in
      let (found, w2, _, e2) = bind_some _ _ e1 in
      let (t, w3, _, e3) = bind_some _ _ e2 in kind-IsFound found.1 settings names cmd w3 v e3

  -- If `install` returns a command, then the platform was detected, and the full or the light tool
  -- of the version that the settings or the environment ask for was run at the end from its folder
  -- and reported this version; after that only the CMD file was written, with the command.
  pub install-IsFound :
      (settings : Settings) (cmd : Word) (w v : W)
      → install os settings w ≡ (some (some cmd), v)
      → (platform : Platform) × (detect_here os.host ≡ some platform)
        × IsFound settings
            (names_of platform settings.output_folder (
              overwritten
                (os.environ (codes "JONCHKI_VERSION_OVERWRITE"))
                settings.jonchki_version))
            cmd
            v
  unfolding install
  install-IsFound settings cmd w v e =
      let (platform, w1, p, e1) = bind_some _ _ e in
      let (found, w2, f, e2) = bind_some _ _ e1 in
      (
        platform,
        ap (λ (q : Option Platform × W). q.0) p,
        elim (or_else-some found _ e2) [
          | inl (c, same) ↦ full-IsFound settings _ cmd w1 v (
              f
              ∙ ap (λ (o : Option Word). (some o, w2)) c
              ∙ ap (λ (x : W). (some (some cmd), x)) same)
          | inr e3 ↦
              let (found', w3, g, e4) = bind_some _ _ e3 in
              elim (or_else-some found' _ e4) [
                | inl (c, same) ↦ light-IsFound settings _ cmd w2 v (
                    g
                    ∙ ap (λ (o : Option Word). (some o, w3)) c
                    ∙ ap (λ (x : W). (some (some cmd), x)) same)
                | inr e5 ↦ archive-IsFound settings platform _ cmd w3 v e5
              ]
        ],
      )
