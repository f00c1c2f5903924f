-- ===== src/SpiFlashes/Tests.antt =====
-- The table of one flash, with an interpreter of decimal numbers.
use org_muhkuh_tools_flasher.Common.{
  ℕ, ◌+◌, ◌-◌, ◌*◌, ◌≡◌, ◌≤◌, refl, Option, none, some, List, [], ◌∷◌, length, map, All, String,
  if◌then◌else◌,
}
use org_muhkuh_tools_flasher.Common.Words.{Word, codes, eq_word, is_digit, strip}
use org_muhkuh_tools_flasher.SpiFlashes.Values.{Element, FlashNode}
use org_muhkuh_tools_flasher.SpiFlashes.Entries.{Entry, read_entry, check_entry}
use org_muhkuh_tools_flasher.SpiFlashes.Commands.{LayoutMode}
use org_muhkuh_tools_flasher.SpiFlashes.Lines.{flash_lines}
use org_muhkuh_tools_flasher.SpiFlashes.Table.{Header, spiflashes_action}
use org_muhkuh_tools_flasher.SpiFlashes.Checks.{IsEntry}
use org_muhkuh_tools_flasher.SpiFlashes.Sizes.{Fits}
use org_muhkuh_tools_flasher.SpiFlashes.Laws.{spiflashes_action_cases}
use org_muhkuh_tools_flasher.SpiFlashes.Loop.{AreNew, read_flashes}

abbrev digits : ℕ → Word → Option ℕ
digits n [] = some n
digits n (c ∷ w) = if is_digit c then digits (10 * n + (c - b'0')) w else none

abbrev int : Word → Option ℕ
int [] = none
int (c ∷ w) = digits 0 (c ∷ w)

abbrev same : ℕ → ℕ
same n = n

-- One sign per number is enough here.
abbrev show : ℕ → Word
show n = (b'0' + n) ∷ []

abbrev lookup : List (String × String) → Word → Option Word
lookup [] name = none
lookup ((n, v) ∷ rest) name = if eq_word (codes n) name then some (codes v) else lookup rest name

abbrev element : List (String × String) → Option Element
element attributes = some (record { text = some (codes "A flash"); attrib = lookup attributes })

abbrev find : List (String × List (String × String)) → Word → Option Element
find [] path = none
find ((n, attributes) ∷ rest) path =
    if eq_word (codes n) path then element attributes else find rest path

abbrev nodes : List FlashNode
nodes =
    record {
      findall = λ path. [];
      find = find (
          (".", ("name", "W25Q32") ∷ ("size", "4") ∷ ("clock", "8") ∷ [])
          ∷ ("Description", [])
          ∷ ("Layout", ("pageSize", "2") ∷ ("sectorPages", "1") ∷ ("mode", "linear") ∷ [])
          ∷ ("Read", ("readArrayCommand", "3") ∷ ("ignoreBytes", "0") ∷ [])
          ∷ (
            "Write",
            ("writeEnableCommand", "6")
                ∷ ("pageProgramCommand", "2")
                ∷ ("bufferFillCommand", "")
                ∷ ("bufferWriteCommand", "")
                ∷ ("eraseAndPageProgramCommand", "")
                ∷ [],
          )
          ∷ (
            "Erase",
            ("erasePageCommand", "") ∷ ("eraseSectorCommand", "7") ∷ ("eraseChipCommand", "9") ∷ [],
          )
          ∷ (
            "Status",
            ("readStatusCommand", "5") ∷ ("statusReadyMask", "1") ∷ ("statusReadyValue", "0") ∷ [],
          )
          ∷ ("Init0", ("command", "") ∷ [])
          ∷ ("Init1", ("command", "1, 2") ∷ [])
          ∷ ("Id", ("send", "9,0") ∷ ("mask", "0,1") ∷ ("magic", "0,8") ∷ [])
          ∷ []);
    }
    ∷ []

abbrev entries : List (Entry ℕ × LayoutMode)
entries = elim (read_flashes int same nodes) [ none ↦ [] | some fs ↦ fs ]

abbrev table : Option (List Word × Header)
table = spiflashes_action int same show show nodes

abbrev header : Header
header = record {
  elements = 1;
  sizeof = record { max_name = 21; max_erase_chip = 1; max_init0 = 1; max_init1 = 2; max_id = 2 };
}

spiflashes_action_cases_example :
    (fs : List (Entry ℕ × LayoutMode)) × (read_flashes int same nodes ≡ some fs)
    × (flash_lines same show show entries ≡ flash_lines same show show fs)
    × AreNew [] (map (λ (f : Entry ℕ × LayoutMode). f.0.name) fs)
    × All (λ f. IsEntry f.0) fs
    × All (λ f. Fits header.sizeof f.0) fs
    × (header.elements ≡ length fs)
    × (21 ≤ header.sizeof.max_name)
unfolding spiflashes_action read_flashes read_entry strip check_entry
spiflashes_action_cases_example =
    spiflashes_action_cases int same show show nodes (flash_lines same show show entries) header
      refl
