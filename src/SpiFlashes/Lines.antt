-- ===== src/SpiFlashes/Lines.antt =====
-- site_scons/spi_flashes.py: the lines that `spiflashes_action` writes for an entry.
use org_muhkuh_tools_flasher.Common.{
  ℕ, zero, suc, ◌-◌, Option, none, some, String, List, [], ◌∷◌, ◌++◌, map, ltb, length,
  if◌then◌else◌,
}
use org_muhkuh_tools_flasher.Common.Words.{Word, codes}
use org_muhkuh_tools_flasher.SpiFlashes.Entries.{Entry}
use org_muhkuh_tools_flasher.SpiFlashes.Commands.{
  read_array, write_enable, page_program, buffer_fill, buffer_write, erase_and_page_program,
  erase_page, erase_sector, erase_chip, read_status, init0, init1, id_send, id_mask, id_magic,
  LayoutMode, linear, pagesize_bitshift,
}

abbrev pub blank : ℕ
blank = 32

-- `' ' * n`
unfoldable pub blanks : ℕ → Word
blanks zero = []
blanks (suc n) = blank ∷ blanks n

-- `uiIndent`
abbrev pub indent : ℕ
indent = 88

-- A line of the template: the pattern with its value, and the comment.
unfoldable pub template_line : Word → Word → Word
unfolding blanks
template_line line comment =
    (if ltb (length line) indent then line ++ blanks (indent - length line) else line) ++ comment

unfoldable pub mode_name : LayoutMode → Word
mode_name linear = codes "SPIFLASH_ADR_LINEAR"
mode_name pagesize_bitshift = codes "SPIFLASH_ADR_PAGESIZE_BITSHIFT"

-- `'        /* %s */' % text`, where a missing text is "None".
abbrev pub comment_line : Option Word → Word
comment_line none = codes "        /* None */"
comment_line (some text) = codes "        /* " ++ text ++ codes " */"

-- `%d`, `%02x` and the type of `len` are parameters.
module _ {N : Type 0} (len : ℕ → N) (decimal hex : N → Word) where
  byte : N → Word
  byte n = codes "0x" ++ hex n

  -- `string.join(['0x%02x' % ucByte ...], ', ')`
  unfoldable pub hex_dump : List N → Word
  unfolding byte
  hex_dump [] = []
  hex_dump (n ∷ []) = byte n
  hex_dump (n ∷ (m ∷ ns)) = byte n ++ codes ", " ++ hex_dump (m ∷ ns)

  -- The single value of a command.
  first_byte : List N → Word
  unfolding byte
  first_byte [] = []
  first_byte (n ∷ ns) = byte n

  numeric : String → N → String → Word
  numeric field n comment = template_line (codes field ++ decimal n ++ codes ",") (codes comment)

  single : String → List N → String → Word
  unfolding first_byte
  single field ns comment =
      template_line (codes field ++ first_byte ns ++ codes ",") (codes comment)

  dump : String → List N → String → String → Word
  unfolding hex_dump
  dump field ns close comment =
      template_line (codes field ++ hex_dump ns ++ codes close) (codes comment)

  -- `aTemplateLines`, filled in.
  unfoldable pub template_lines : Entry N → LayoutMode → List Word
  unfolding template_line numeric single dump byte mode_name
  template_lines entry mode =
      template_line
        (codes "                                 .acName = \"" ++ entry.name ++ codes "\\0\",")
        (codes "/* name                       */")
      ∷ numeric "                                 .ulSize = " entry.size
          "/* size                       */"
      ∷ numeric "                                .ulClock = " entry.clock
          "/* minClock                   */"
      ∷ numeric "                             .ulPageSize = " entry.page_size
          "/* pageSize                   */"
      ∷ numeric "                          .ulSectorPages = " entry.sector_pages
          "/* sectorSize                 */"
      ∷ template_line
          (codes "                               .tAdrMode = " ++ mode_name mode ++ codes ",")
          (codes "/* address mode               */")
      ∷ single "                           .ucReadOpcode = " (entry.arrays read_array)
          "/* readOpcode                 */"
      ∷ numeric "                    .ucReadOpcodeDCBytes = " entry.ignore_bytes
          "/* readOpcodeDCBytes          */"
      ∷ single "                    .ucWriteEnableOpcode = " (entry.arrays write_enable)
          "/* writeEnableOpcode          */"
      ∷ single "                      .ucErasePageOpcode = " (entry.arrays erase_page)
          "/* erase page                 */"
      ∷ single "                    .ucEraseSectorOpcode = " (entry.arrays erase_sector)
          "/* eraseSectorOpcode          */"
      ∷ numeric "                      .ucEraseChipCmdLen = " (len (entry.read_length erase_chip))
          "/* erase chip command length  */"
      ∷ dump "                        .aucEraseChipCmd = {" (entry.arrays erase_chip) "},"
          "/* erase chip command         */"
      ∷ single "                       .ucPageProgOpcode = " (entry.arrays page_program)
          "/* pageProgOpcode             */"
      ∷ single "                           .ucBufferFill = " (entry.arrays buffer_fill)
          "/* buffer fill opcode         */"
      ∷ single "                    .ucBufferWriteOpcode = " (entry.arrays buffer_write)
          "/* buffer write opcode        */"
      ∷ single "               .ucEraseAndPageProgOpcode = " (entry.arrays erase_and_page_program)
          "/* eraseAndPageProgOpcode     */"
      ∷ single "                     .ucReadStatusOpcode = " (entry.arrays read_status)
          "/* readStatusOpcode           */"
      ∷ template_line
          (codes "                      .ucStatusReadyMask = "
            ++ byte entry.status_ready_mask
            ++ codes ",")
          (codes "/* statusReadyMask            */")
      ∷ template_line
          (codes "                     .ucStatusReadyValue = "
            ++ byte entry.status_ready_value
            ++ codes ",")
          (codes "/* statusReadyValue           */")
      ∷ numeric "                      .ucInitCmd0_length = " (len (entry.read_length init0))
          "/* initCmd0_length            */"
      ∷ dump "                            .aucInitCmd0 = {" (entry.arrays init0) "},"
          "/* initCmd0                   */"
      ∷ numeric "                      .ucInitCmd1_length = " (len (entry.read_length init1))
          "/* initCmd1_length            */"
      ∷ dump "                            .aucInitCmd1 = {" (entry.arrays init1) "},"
          "/* initCmd1                   */"
      ∷ numeric "                             .ucIdLength = " (len (entry.read_length id_send))
          "/* id_length                  */"
      ∷ dump "                              .aucIdSend = {" (entry.arrays id_send) "},"
          "/* id_send                    */"
      ∷ dump "                              .aucIdMask = {" (entry.arrays id_mask) "},"
          "/* id_mask                    */"
      ∷ dump "                             .aucIdMagic = {" (entry.arrays id_magic) "}"
          "/* id_magic                   */"
      ∷ []

  entry_lines : Entry N → LayoutMode → List Word
  unfolding template_lines
  entry_lines entry mode =
      comment_line entry.description ∷ map (λ (note : Word). comment_line (some note)) entry.notes
      ++ codes "        {" ∷ template_lines entry mode
      ++ codes "        }," ∷ codes "        " ∷ []

  unfoldable pub flash_lines : List (Entry N × LayoutMode) → List Word
  unfolding entry_lines
  flash_lines [] = []
  flash_lines ((entry, mode) ∷ flashes) = entry_lines entry mode ++ flash_lines flashes
