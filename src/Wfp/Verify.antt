-- ===== src/Wfp/Verify.antt =====
-- The commands of TestWfpFlash and TestWfpOs: the package is packed and flashed, and each of its files verified.
use org_muhkuh_tools_flasher.Common.{ℕ, ◌*◌, Option, none, some, List, [], ◌∷◌, ◌++◌, map}
use org_muhkuh_tools_flasher.Common.Words.{Word, codes}
use org_muhkuh_tools_flasher.Common.Paths.{join}
use org_muhkuh_tools_flasher.Common.Decimals.{decimal}
use org_muhkuh_tools_flasher.TestCases.Hexadecimal.{hexadecimal}
use org_muhkuh_tools_flasher.Wfp.Commands.{WfpCommand, Inputs, text, options, convert_wfp_commands}
use org_muhkuh_tools_flasher.Wfp.Package.{Flash, Data, hexadecimal_8}

abbrev pub flasher_command : List Word → WfpCommand
flasher_command parameters = record {
  programs = (codes "flasher", text (codes "True")) ∷ [];
  parameters = codes "cli_flash.lua" ∷ parameters;
}

-- `{"wfp": {}}`
abbrev pub pack_command : List Word → WfpCommand
pack_command parameters = record {
  programs = (codes "wfp", options none) ∷ [];
  parameters = codes "wfp.lua" ∷ parameters;
}

-- `{"wfp": {"user_input": self.plug_num}}`
abbrev pub package_command : ℕ → List Word → WfpCommand
package_command plug_num parameters = record {
  programs = (codes "wfp", options (some plug_num)) ∷ [];
  parameters = codes "wfp.lua" ∷ parameters;
}

-- `"-b %s -u %s -cs %s"`
unfoldable pub bus_port_parameters : Flash → Word
unfolding decimal
bus_port_parameters m =
    codes "-b " ++ decimal m.b ++ codes " -u " ++ decimal m.u ++ codes " -cs " ++ decimal m.cs

-- The attributes that the commands are made of: `plug_num`, the memory, the parameter of the plugin, and the
-- paths of the package.
pub record Paths : Type 0 where
  pub plug_num : ℕ
  pub memory : Flash
  pub plugin_name : Word
  pub wfp_dir_path : Word
  pub wfp_zip_path : Word
  pub wfp_xml_path : Word

-- `init_params` sets the plugin and its number, `pre_test_step` the paths.
unfoldable pub init_params_wfp : Word → ℕ → Flash → Word → Word → Word → Paths
init_params_wfp plugin plug_num m dir zip xml = record {
  plug_num = plug_num;
  memory = m;
  plugin_name = codes "-p " ++ plugin;
  wfp_dir_path = dir;
  wfp_zip_path = zip;
  wfp_xml_path = xml;
}

module _ (t : Paths) where
  unfoldable pub verify_command : Data → WfpCommand
  unfolding bus_port_parameters hexadecimal_8 join
  verify_command f = flasher_command (
      codes "verify"
      ∷ bus_port_parameters t.memory
      ∷ t.plugin_name
      ∷ codes "-s"
      ∷ (codes "0x" ++ hexadecimal_8 (f.range.offset * 1024))
      ∷ join t.wfp_dir_path f.file
      ∷ [])

  unfoldable pub erase_command : WfpCommand
  unfolding bus_port_parameters hexadecimal
  erase_command = flasher_command (
      codes "erase"
      ∷ bus_port_parameters t.memory
      ∷ (codes "-l 0x" ++ hexadecimal t.memory.size)
      ∷ t.plugin_name
      ∷ [])

  unfoldable pub wfp_flash_commands : List Data → List Data → List WfpCommand
  unfolding erase_command verify_command
  wfp_flash_commands files empty =
      erase_command
      ∷ pack_command (codes "pack" ∷ t.wfp_xml_path ∷ t.wfp_zip_path ∷ [])
      ∷ package_command t.plug_num (codes "flash" ∷ t.wfp_zip_path ∷ [])
      ∷ (map verify_command files ++ map verify_command empty)

  unfoldable pub wfp_os_commands : List Data → List WfpCommand
  unfolding verify_command
  wfp_os_commands files =
      pack_command (codes "-h" ∷ [])
      ∷ pack_command (codes "--help" ∷ [])
      ∷ pack_command (codes "pack" ∷ codes "-h" ∷ [])
      ∷ pack_command (codes "p" ∷ codes "--help" ∷ [])
      ∷ pack_command (codes "pack" ∷ t.wfp_xml_path ∷ t.wfp_zip_path ∷ [])
      ∷ pack_command (codes "pack" ∷ t.wfp_xml_path ∷ t.wfp_zip_path ∷ codes "-o" ∷ [])
      ∷ pack_command (codes "pack" ∷ t.wfp_xml_path ∷ t.wfp_zip_path ∷ codes "--overwrite" ∷ [])
      ∷ pack_command (codes "list" ∷ codes "-h" ∷ [])
      ∷ pack_command (codes "l" ∷ codes "--help" ∷ [])
      ∷ pack_command (codes "list" ∷ t.wfp_zip_path ∷ [])
      ∷ pack_command (codes "flash" ∷ codes "-h" ∷ [])
      ∷ pack_command (codes "f" ∷ codes "--help" ∷ [])
      ∷ package_command t.plug_num (codes "flash" ∷ t.wfp_zip_path ∷ codes "-d" ∷ [])
      ∷ package_command t.plug_num (codes "flash" ∷ t.wfp_zip_path ∷ codes "--dry-run" ∷ [])
      ∷ package_command t.plug_num (codes "flash" ∷ t.wfp_zip_path ∷ [])
      ∷ map verify_command files

-- TestWfpOs has the same conversion.
unfoldable pub convert_wfp_os :
    Word → Word → ℕ → List WfpCommand → Inputs → Option (List WfpCommand × List Word × Inputs)
unfolding convert_wfp_commands
convert_wfp_os = convert_wfp_commands
