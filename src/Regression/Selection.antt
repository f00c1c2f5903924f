-- ===== src/Regression/Selection.antt =====
-- `setUpClass`: the one connected chip, its protocol, its port and its memories.
use org_muhkuh_tools_flasher.Common.{
  ℕ, ◌*◌, Option, none, some, List, [], ◌∷◌, ◌==◌, if◌then◌else◌, ◌>>=◌,
}
use org_muhkuh_tools_flasher.Common.Words.{Word, codes, eq_word}
use org_muhkuh_tools_flasher.Dyntest.{Memory, bytes}

-- What is known of a connected chip; the type number is the one that `int` reads.
pub record Connected : Type 0 where
  pub port : Word
  pub type_number : ℕ
  pub type_identifier : Word
  pub flasher_name : Word

-- One entry of the select list: the type, the ports that stand for another protocol, and the memories.
pub record Chip : Type 0 where
  pub id : ℕ
  pub assigned : List (Word × Word)
  pub memories : List Memory

pub record Setup : Type 0 where
  pub plugin_name : Word
  pub netx_port : Word
  pub netx_protocol : Word
  pub netx_chip_type : ℕ
  pub netx_chip_type_id : Word
  pub memories_to_test : List Memory

abbrev pub assignment_list : List (Word × Word)
assignment_list =
    (codes "romloader_usb", codes "USB")
    ∷ (codes "romloader_uart", codes "UART")
    ∷ (codes "romloader_jtag", codes "JTAG")
    ∷ (codes "romloader_eth", codes "ETHERNET")
    ∷ []

abbrev memory : ℕ → ℕ → Word → ℕ → Memory
memory b u name size = record { b = b; u = u; cs = 0; name = name; size = bytes size }

abbrev mebibyte : ℕ
mebibyte = 1048576

abbrev parallel_flash : Memory
parallel_flash = memory 0 0 (codes "S29GL128P90") (16 * mebibyte)

abbrev serial_flash : Memory
serial_flash = memory 1 0 (codes "W25Q32") (4 * mebibyte)

abbrev usb_as_uart : List (Word × Word)
usb_as_uart = (codes "USB", codes "UART") ∷ []

abbrev internal_flashes : List Memory
internal_flashes =
    serial_flash
    ∷ memory 2 0 (codes "INT flash 0") 524288
    ∷ memory 2 1 (codes "INT flash 1") 524288
    ∷ memory 2 2 (codes "INT flash 2") 524288
    ∷ memory 2 3 (codes "INT flash 0/1") mebibyte
    ∷ []

abbrev chip : ℕ → List (Word × Word) → List Memory → Chip
chip id assigned memories = record { id = id; assigned = assigned; memories = memories }

abbrev pub select_list : List Chip
select_list =
    chip 1 ((codes "USB", codes "USB") ∷ []) (parallel_flash ∷ serial_flash ∷ [])
    ∷ chip 3 usb_as_uart (parallel_flash ∷ serial_flash ∷ [])
    ∷ chip 5 [] (parallel_flash ∷ serial_flash ∷ [])
    ∷ chip 6 usb_as_uart (serial_flash ∷ [])
    ∷ chip 7 usb_as_uart (serial_flash ∷ [])
    ∷ chip 11 usb_as_uart (
        memory 1 0 (codes "MX25L12835FM2I") (16 * mebibyte)
        ∷ memory 3 0 (codes "SD-Card_2GB") 1610612736
        ∷ [])
    ∷ chip 13 usb_as_uart internal_flashes
    ∷ chip 14 usb_as_uart internal_flashes
    ∷ chip 15 usb_as_uart (serial_flash ∷ [])
    ∷ chip 16 usb_as_uart (serial_flash ∷ [])
    ∷ []

-- The protocol of a flasher name; an unknown one raises.
unfoldable pub protocol_alias : List (Word × Word) → Word → Option Word
protocol_alias [] name = none
protocol_alias ((n, alias) ∷ rest) name =
    if eq_word n name then some alias else protocol_alias rest name

-- The port that stands for the protocol, else the protocol itself.
unfoldable pub port_type : List (Word × Word) → Word → Word
port_type [] alias = alias
port_type ((key, v) ∷ rest) alias = if eq_word v alias then key else port_type rest alias

unfoldable pub find_chip : List Chip → ℕ → Option Chip
find_chip [] id = none
find_chip (c ∷ cs) id = if c.id == id then some c else find_chip cs id

unfoldable pub select_chip : Connected → Option Setup
unfolding protocol_alias port_type find_chip
select_chip netx = do
  alias ← protocol_alias assignment_list netx.flasher_name
  found ← find_chip select_list netx.type_number
  some (record {
    plugin_name = netx.port;
    netx_port = port_type found.assigned alias;
    netx_protocol = alias;
    netx_chip_type = netx.type_number;
    netx_chip_type_id = netx.type_identifier;
    memories_to_test = found.memories;
  })

-- No chip, or more than one, raises.
unfoldable pub set_up_class : List Connected → Option Setup
unfolding select_chip
set_up_class [] = none
set_up_class (netx ∷ []) = select_chip netx
set_up_class (netx ∷ (other ∷ more)) = none
