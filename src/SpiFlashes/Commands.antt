-- ===== src/SpiFlashes/Commands.antt =====
-- site_scons/spi_flashes.py: the keys of the values that are arrays, and the layout modes.
use org_muhkuh_tools_flasher.Common.{
  Bool, true, false, Option, none, some, List, [], ◌∷◌, if◌then◌else◌,
}
use org_muhkuh_tools_flasher.Common.Words.{Word, codes, eq_word}

-- The values of an entry that are arrays when they are read.
pub data Command : Type 0 where
  read_array : Command
  write_enable : Command
  page_program : Command
  buffer_fill : Command
  buffer_write : Command
  erase_and_page_program : Command
  erase_page : Command
  erase_sector : Command
  erase_chip : Command
  read_status : Command
  init0 : Command
  init1 : Command
  id_send : Command
  id_mask : Command
  id_magic : Command

-- The keys of `aEntryNames`.
abbrev pub path : Command → Word
path read_array = codes "Read@readArrayCommand"
path write_enable = codes "Write@writeEnableCommand"
path page_program = codes "Write@pageProgramCommand"
path buffer_fill = codes "Write@bufferFillCommand"
path buffer_write = codes "Write@bufferWriteCommand"
path erase_and_page_program = codes "Write@eraseAndPageProgramCommand"
path erase_page = codes "Erase@erasePageCommand"
path erase_sector = codes "Erase@eraseSectorCommand"
path erase_chip = codes "Erase@eraseChipCommand"
path read_status = codes "Status@readStatusCommand"
path init0 = codes "Init0@command"
path init1 = codes "Init1@command"
path id_send = codes "Id@send"
path id_mask = codes "Id@mask"
path id_magic = codes "Id@magic"

-- `aOptionalCommands`
abbrev pub is_optional : Command → Bool
is_optional read_array = false
is_optional read_status = false
is_optional id_send = false
is_optional id_mask = false
is_optional id_magic = false
is_optional _ = true

-- `aSingleByteCommands`
abbrev pub single_byte_commands : List Command
single_byte_commands =
    read_array ∷ write_enable ∷ page_program ∷ buffer_fill ∷ buffer_write ∷ erase_and_page_program
    ∷ erase_page ∷ erase_sector ∷ read_status ∷ []

abbrev pub id_entries : List Command
id_entries = id_send ∷ id_mask ∷ id_magic ∷ []

-- `aLayoutMode`
pub data LayoutMode : Type 0 where
  linear : LayoutMode
  pagesize_bitshift : LayoutMode

unfoldable pub layout_mode : Word → Option LayoutMode
layout_mode mode =
    if eq_word mode (codes "linear")
    then some linear
    else if eq_word mode (codes "pagesize bitshift")
    then some pagesize_bitshift
    else none
