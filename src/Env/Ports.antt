-- ===== src/Env/Ports.antt =====
-- `re_retrive_ports_from_list`: the ports in the output of "list_interfaces"; and the chip type in
-- the output of "detect_netx", `re_retrive_netxProperties_from_list`.
pub mod Listing
pub mod Lines
use org_muhkuh_tools_flasher.Common.{
  ℕ, zero, suc, ◌+◌, ◌-◌, Bool, true, false, ◌&&◌, ◌||◌, not, Option, none, some, List, [], ◌∷◌,
  ◌++◌, ◌==◌, leb, if◌then◌else◌, ◌>>=◌, length, take, drop,
}
use mathlib.Core.List.{reverse}
use org_muhkuh_tools_flasher.Common.Words.{
  Word, codes, is_infix, split, is_digit, is_space, take_while, drop_while, after_prefix,
}
use org_muhkuh_tools_flasher.Common.Runs.{some_of}
use org_muhkuh_tools_flasher.Jasonixer.{Chip, ChipNumber, text, generate_desc_empty_chip}

abbrev pub newline : ℕ
newline = 10

abbrev pub start_marker : Word
start_marker = codes "START LIST NOT USED INTERFACES"

abbrev pub end_marker : Word
end_marker = codes "END LIST INTERFACES"

-- The loop for the two indexes. A second line with a marker is a failed assertion.
unfoldable pub find_markers : List Word → ℕ → Option ℕ → Option ℕ → Option (Option ℕ × Option ℕ)
find_markers [] i first last = some (first, last)
find_markers (item ∷ items) i first last =
    let twice =
      (is_infix start_marker item && (elim first [ none ↦ false | some j ↦ true ]))
      || (is_infix end_marker item && (elim last [ none ↦ false | some j ↦ true ])) in
    let rest =
      find_markers items (i + 1) (if is_infix start_marker item then some i else first)
        (if is_infix end_marker item then some i else last) in
    if twice then none else rest

-- `\w` and the class `[\w@\-:\./]`
abbrev pub is_word : ℕ → Bool
is_word c = is_digit c || (leb b'a' c && leb c b'z') || (leb b'A' c && leb c b'Z') || c == b'_'

abbrev pub is_port : ℕ → Bool
is_port c = is_word c || c == b'@' || c == b'-' || c == b':' || c == b'.' || c == b'/'

-- The groups of '(\d+) : Name:([\w@\-:\./]+)\s+Typ: (\w+)'.
unfoldable pub match_interface : Word → Option (Word × Word × Word)
unfolding after_prefix
match_interface line = do
  (index, s) ← some_of is_digit line
  s ← after_prefix (codes " : Name:") s
  (port, s) ← some_of is_port s
  (blanks, s) ← some_of is_space s
  s ← after_prefix (codes "Typ: ") s
  (type, s) ← some_of is_word s
  some (index, port, type)

-- The loop over the lines of the list. A line that does not match raises an exception.
unfoldable pub read_interfaces : List Word → Option (List Chip)
unfolding match_interface generate_desc_empty_chip
read_interfaces [] = some []
read_interfaces (line ∷ lines) = do
  (index, port, type) ← match_interface line
  chip ← generate_desc_empty_chip none (some type) none (some port)
  chips ← read_interfaces lines
  some (record chip { it = some index } ∷ chips)

-- `list[start + 2:stop - 1]`, where an end of -1 is counted from the back.
unfoldable pub slice_lines : List Word → ℕ → ℕ → List Word
slice_lines lines start zero = drop (start + 2) (take (length lines - 1) lines)
slice_lines lines start (suc stop) = drop (start + 2) (take stop lines)

unfoldable pub retrieve_ports : Word → Option (List Chip)
retrieve_ports output = do
  let lines = split newline output
  (first, last) ← find_markers lines 0 none none
  start ← first
  stop ← last
  read_interfaces (slice_lines lines start stop)

-- The groups of 'Chip type:\s\((\d+)\)\s(.*)'.
unfoldable pub match_chip_type : Word → Option (Word × Word)
unfolding some_of after_prefix
match_chip_type line = do
  s ← after_prefix (codes "Chip type:") line
  s ← elim s [ [] ↦ none | c ∷ s ↦ if is_space c then some s else none ]
  s ← after_prefix (codes "(") s
  (type, s) ← some_of is_digit s
  s ← after_prefix (codes ")") s
  s ← elim s [ [] ↦ none | c ∷ s ↦ if is_space c then some s else none ]
  some (type, take_while (λ c. not (c == newline)) s)

-- The loop over the lines, from the last one: the first with 'Chip type: (' decides.
unfoldable pub read_chip_type : List Word → Chip → Chip
unfolding match_chip_type
read_chip_type [] chip = chip
read_chip_type (line ∷ lines) chip =
    let rest = read_chip_type lines chip in
    if is_infix (codes "Chip type: (") line
    then elim (match_chip_type line) [
      | none ↦ chip
      | some (type, identifier) ↦ record chip {
        type_number = text type;
        type_identifier = identifier;
      }
    ]
    else rest

-- `assert number != ''` and `assert identifier != ''`
abbrev pub is_filled : Chip → Bool
is_filled chip =
    not (elim chip.type_number [
      | ChipNumber.number n ↦ false
      | text [] ↦ true
      | text (c ∷ w) ↦ false
    ])
    && not (elim chip.type_identifier [ [] ↦ true | c ∷ w ↦ false ])

unfoldable pub retrieve_properties : Word → Chip → Option Chip
retrieve_properties output chip =
    let read = read_chip_type (reverse (split newline output)) chip in
    if is_filled read then some read else none
