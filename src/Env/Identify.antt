-- ===== src/Env/Identify.antt =====
-- `identify_connected_netx`: the chips that pass the masks and answer to "detect_netx". The two commands
-- of the flasher run on a state of any type, and answer with a failure or not and an output.
pub mod Touched
use org_muhkuh_tools_flasher.Common.{
  Bool, true, false, Option, none, some, List, [], ◌∷◌, if◌then◌else◌,
}
use org_muhkuh_tools_flasher.Common.Words.{Word}
use org_muhkuh_tools_flasher.Common.Io.{Io, ◌>>=◌, return, from_option}
use org_muhkuh_tools_flasher.Jasonixer.{Chip}
use org_muhkuh_tools_flasher.Env.Masks.{Mask, apply_masks}
use org_muhkuh_tools_flasher.Env.Ports.{retrieve_ports, retrieve_properties}

-- The command carrier after a command: whether its return value is not 0, and its output.
pub record Carrier : Type 0 where
  pub failed : Bool
  pub stdout : Word

-- The flasher: `list_interfaces`, and `detect_netx` on the port of a chip. The call itself may raise.
pub record Flasher (W : Type 0) : Type 0 where
  pub list_interfaces : Io W Carrier
  pub detect_netx : Chip → Io W Carrier

module _ {W : Type 0} (flasher : Flasher W) where
  -- The loop over the chips that the masks leave.
  unfoldable pub detect_all : List Chip → Io W (List Chip)
  detect_all [] = return []
  detect_all (chip ∷ chips) = do
    carrier ← flasher.detect_netx chip
    if carrier.failed then detect_all chips else (do
      chip ← from_option (retrieve_properties carrier.stdout chip)
      accessible ← detect_all chips
      return (chip ∷ accessible))

  -- `if len(all_netx) == 0`, and the masks.
  unfoldable pub detect_listed : Mask → Mask → List Chip → Io W (List Chip)
  unfolding detect_all
  detect_listed black white [] = return []
  detect_listed black white (chip ∷ chips) = do
    kept ← from_option (apply_masks (chip ∷ chips) black white)
    detect_all kept

  unfoldable pub identify_connected_netx : Mask → Mask → Io W (List Chip)
  unfolding detect_listed
  identify_connected_netx white black = do
    carrier ← flasher.list_interfaces
    if carrier.failed then return [] else (do
      all_netx ← from_option (retrieve_ports carrier.stdout)
      detect_listed black white all_netx)
