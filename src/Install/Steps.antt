-- ===== src/Install/Steps.antt =====
-- jonchki/jonchkihere.py, `install`.
use org_muhkuh_tools_flasher.Common.{true, false, Option, none, some, [], if◌then◌else◌}
use org_muhkuh_tools_flasher.Common.Words.{Word, codes}
use org_muhkuh_tools_flasher.Common.Paths.{join}
use org_muhkuh_tools_flasher.Platform.{Platform, detect_here}
use org_muhkuh_tools_flasher.Download.{Bytes, returned, raised, unfinished, download_to_file}
use org_muhkuh_tools_flasher.Archive.{done, invalid_member, unknown_format, extract_archive}
use org_muhkuh_tools_flasher.Install.Format.{Replacements, format}
use org_muhkuh_tools_flasher.Install.System.{System}
use org_muhkuh_tools_flasher.Common.Io.{
  Io, ◌>>=◌, return, or_else, raise, modify, gets, from_option,
}
use org_muhkuh_tools_flasher.Install.Check.{check_jonchki_version}
use org_muhkuh_tools_flasher.Install.Names.{
  Settings, Names, Kind, overwritten, names_of, replacements, local_template, light_template,
  url_template, light_url_template, Found, Files, full, light,
}

module _ {W : Type 0} (os : System W) where
  unfoldable pub format_files : Replacements → Io W Files
  unfolding format
  format_files values = do
    local_file ← from_option (format values local_template)
    url ←
        from_option
          (format values (overwritten (os.environ (codes "JONCHKI_URL_OVERWRITE")) url_template))
    light_local_file ← from_option (format values light_template)
    light_url ← from_option (
        format values
          (overwritten (os.environ (codes "JONCHKI_LIGHT_URL_OVERWRITE")) light_url_template))
    return (record {
      local_file = local_file;
      url = url;
      light_local_file = light_local_file;
      light_url = light_url;
    })

  -- The archives in the local folder: the full version first, then the light version.
  unfoldable pub find_local : Option Word → Word → Files → Io W (Option Found)
  find_local none archive_format files = return none
  find_local (some folder) archive_format files = do
    has_full ← gets (os.exists (join folder files.local_file))
    if has_full
        then (do
          data' ← gets (os.read_file (join folder files.local_file))
          return (some (data', full, archive_format)))
        else (do
          has_light ← gets (os.exists (join folder files.light_local_file))
          if has_light
              then (do
                data' ← gets (os.read_file (join folder files.light_local_file))
                return (some (data', light, codes "zip")))
              else return none)

  -- A download to a new temporary file. `none` is the return value `False`; a download that does not end gives
  -- no result.
  unfoldable pub fetch : Word → Io W (Option Bytes)
  unfolding download_to_file
  fetch url w =
      elim (download_to_file os.clock (os.writes url w) os.patience (os.urlopen url w) []) [
        | returned true file bar ↦ (some (some file), w)
        | returned false file bar ↦ (some none, w)
        | raised file ↦ (none, w)
        | unfinished ↦ (none, w)
      ]

  unfoldable pub find_remote : Word → Files → Io W Found
  unfolding fetch
  find_remote archive_format files = do
    file ← fetch files.url
    elim file [
      | some data' ↦ return (data', full, archive_format)
      | none ↦ (do
        file ← fetch files.light_url
        elim file [ some data' ↦ return (data', light, codes "zip") | none ↦ raise ])
    ]

  unfoldable pub find_archive : Settings → Platform → Files → Io W Found
  unfolding find_local find_remote
  find_archive settings platform files = do
    stored ← find_local settings.local_archives platform.archive_format files
    elim stored [ some found ↦ return found | none ↦ find_remote platform.archive_format files ]

  -- `__extract_archive`, whose members are written also if it raises in the end.
  unfoldable pub extract : Bytes → Word → Word → Io W Unit
  unfolding extract_archive
  extract file archive_format folder = do
    members ← from_option (os.members archive_format file)
    elim (extract_archive os.cwd archive_format folder members) [
      | done names ↦ modify (os.unpack folder file names)
      | invalid_member names name ↦ (do _ ← modify (os.unpack folder file names); raise)
      | unknown_format ↦ raise
    ]

  unfoldable pub check_full : Settings → Names → Io W (Option Word)
  unfolding check_jonchki_version
  check_full settings names =
      check_jonchki_version os none names.path names.tool names.version (some names.cmd_file)

  unfoldable pub check_light : Settings → Names → Io W (Option Word)
  unfolding check_jonchki_version
  check_light settings names =
      check_jonchki_version os (some settings.lua_interpreter) names.light_path names.light_tool
        names.version (some names.cmd_file)

  -- Is the extracted version valid?
  unfoldable pub check_kind : Kind → Settings → Names → Io W (Option Word)
  unfolding check_full check_light
  check_kind full = check_full
  check_kind light = check_light

  -- The tool is not yet installed.
  unfoldable pub install_archive : Settings → Platform → Names → Io W (Option Word)
  unfolding format_files find_archive extract check_kind
  install_archive settings platform names = do
    files ← format_files (replacements platform names.version)
    (file, kind, archive_format) ← find_archive settings platform files
    _ ← extract file archive_format settings.output_folder
    check_kind kind settings names

  -- The command of the tool, or `None`.
  unfoldable pub install : Settings → Io W (Option Word)
  unfolding names_of check_full check_light install_archive or_else
  install settings = do
    platform ← from_option (detect_here os.host)
    let version =
        overwritten (os.environ (codes "JONCHKI_VERSION_OVERWRITE")) settings.jonchki_version
    let names = names_of platform settings.output_folder version
    found ← check_full settings names
    or_else found (do
      found ← check_light settings names
      or_else found (install_archive settings platform names))
