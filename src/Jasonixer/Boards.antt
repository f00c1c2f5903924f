-- ===== src/Jasonixer/Boards.antt =====
-- The boards and memories of the configuration, and the memories as parameters of the command line.
use org_muhkuh_tools_flasher.Common.{
  ℕ, zero, suc, ◌+◌, ◌*◌, ◌≡◌, refl, ◌∙◌, ap, sym, Bool, true, false, false≢true, Bool-cases, inl,
  inr, none-ne-some, some-injective, arith, Option, none, some, List, [], ◌∷◌, ◌++◌, map, ◌==◌,
  if◌then◌else◌,
}
use org_muhkuh_tools_flasher.Common.Words.{Word, codes, strip}
use org_muhkuh_tools_flasher.Common.Decimals.{decimal}
use org_muhkuh_tools_flasher.Jasonixer.{Chip, ChipNumber, number, text, generate_desc_empty_chip}

-- The dictionary of a memory. The select code is listed in the order in which Python iterates it.
pub record Memory : Type 0 where
  pub memory_name_bus : Word
  pub memory_name_unit : Word
  pub order_number : Word
  pub manufacture : Word
  pub memory_size : ℕ
  pub select_code : List (Word × ℕ)

pub record Board : Type 0 where
  pub board_name : Word
  pub chip : Chip
  pub board_id : List Word
  pub memories : List Memory

-- The attributes `boards` and `dict_selected_board`.
pub record Configuration : Type 0 where
  pub boards : List Board
  pub selected : Option Board

-- A number that is read as a text is no id.
abbrev is_id : ChipNumber → ℕ → Bool
is_id (number n) id = n == id
is_id (text w) id = false

unfoldable pub find_board : ℕ → List Board → Option Board
find_board id [] = none
find_board id (board ∷ boards) =
    let rest = find_board id boards in if is_id board.chip.type_number id then some board else rest

-- `set_board_by_chip_id`; `none` is the failed assertion.
unfoldable pub set_board_by_chip_id : ℕ → Configuration → Option Configuration
unfolding find_board
set_board_by_chip_id id c = elim (find_board id c.boards) [
  | none ↦ none
  | some board ↦ some (record { boards = c.boards; selected = some board })
]

-- "-b 1 -u 0 "
select_parameters : List (Word × ℕ) → Word
select_parameters [] = []
select_parameters ((key, value) ∷ code) =
    b'-' ∷ (key ++ b' ' ∷ (decimal value ++ b' ' ∷ select_parameters code))

unfoldable pub dev_convert_memory_to_commandline_parameter : Memory → Word
unfolding strip select_parameters
dev_convert_memory_to_commandline_parameter memory = strip (select_parameters memory.select_code)

-- Without a selected board the subscript of None raises.
unfoldable pub get_command_line_parameters_for_memories : Configuration → Option (List Word)
unfolding dev_convert_memory_to_commandline_parameter
get_command_line_parameters_for_memories c = elim c.selected [
  | none ↦ none
  | some board ↦ some (map dev_convert_memory_to_commandline_parameter board.memories)
]

unfoldable pub generate_desc_memory : ℕ → Memory
unfolding decimal
generate_desc_memory seed = record {
  memory_name_bus = codes "read_dyn_from info ( bus_name )";
  memory_name_unit = codes "read_dyn_from info ( unit_name )";
  order_number = codes "S12345_from_amaonte c s---2";
  manufacture = codes "future Technologies" ++ decimal seed;
  memory_size = 1024 * ((1 + seed) * 2);
  select_code = (codes "b", 42) ∷ (codes "u", 69) ∷ [];
}

-- The memories of `range(first, first + number)`.
generate_memories : ℕ → ℕ → List Memory
unfolding generate_desc_memory
generate_memories first zero = []
generate_memories first (suc n) = generate_desc_memory first ∷ generate_memories (suc first) n

-- `generae_desc_empty_board`, with the memories that are appended to it.
unfoldable pub generate_desc_board : Word → List Word → List Memory → Option Board
unfolding generate_desc_empty_chip
generate_desc_board name id memories = elim (generate_desc_empty_chip none none none none) [
  | none ↦ none
  | some chip ↦ some (record { board_name = name; chip = chip; board_id = id; memories = memories })
]

-- `generate_desc_base_config`: the list of boards of the dictionary.
unfoldable pub generate_desc_base_config : List Board
generate_desc_base_config = []

append_board : Option Board → List Board → Option (List Board)
append_board none boards = none
append_board (some board) boards = some (boards ++ board ∷ [])

-- The list of the configuration is the attribute `boards`.
unfoldable pub append_example_board_to_config : ℕ → Configuration → Option Configuration
unfolding append_board generate_desc_board generate_memories
append_example_board_to_config num_memories c =
    elim (append_board
      (generate_desc_board (codes "NXHX-Added")
        (codes "123234" ∷ codes "2" ∷ codes "123dsdf2431" ∷ []) (generate_memories 0 num_memories))
      c.boards) [
        | none ↦ none
        | some boards ↦ some (record { boards = boards; selected = c.selected })
      ]

-- The dictionary that `generate_example_total_config` builds and returns.
unfoldable pub example_config : Option (List Board)
unfolding append_board generate_desc_board generate_memories generate_desc_base_config
example_config =
    append_board
      (generate_desc_board (codes "NXHX-Board123")
        (codes "board_manufacture_number" ∷ codes "revision" ∷ codes "serial_number" ∷ [])
        (generate_memories 0 3))
      generate_desc_base_config

is_id-equal : (c : ChipNumber) (id : ℕ) → is_id c id ≡ true → c ≡ number id
is_id-equal (number n) id h = ap number (ground arith)
is_id-equal (text w) id h = absurd (false≢true h)

-- A board that is found has the number.
pub find_board-number :
    (id : ℕ) (boards : List Board) (board : Board)
    → find_board id boards ≡ some board
    → board.chip.type_number ≡ number id
unfolding find_board
find_board-number id [] board h = absurd (none-ne-some board h)
find_board-number id (b ∷ boards) board h = elim (Bool-cases (is_id b.chip.type_number id)) [
  | inl e ↦
      ap (λ (x : Board). x.chip.type_number) (sym (some-injective b board (sym (rw e refl) ∙ h)))
      ∙ is_id-equal b.chip.type_number id e
  | inr e ↦ find_board-number id boards board (sym (rw e refl) ∙ h)
]

-- If a board is selected, it has the number, and the parameters of its memories are given.
pub set_board_by_chip_id-selects :
    (id : ℕ) (c e : Configuration)
    → set_board_by_chip_id id c ≡ some e
    → (board : Board) × (e.selected ≡ some board)
      × (board.chip.type_number ≡ number id)
      × (get_command_line_parameters_for_memories e
          ≡ some (map dev_convert_memory_to_commandline_parameter board.memories))
unfolding set_board_by_chip_id get_command_line_parameters_for_memories
set_board_by_chip_id-selects id c e h = selects (find_board id c.boards) refl h
  where
    selects :
        (o : Option Board)
        → find_board id c.boards ≡ o
        → elim o [
          | none ↦ none
          | some board ↦ some (record { boards = c.boards; selected = some board })
        ]
          ≡ some e
        → (board : Board) × (e.selected ≡ some board)
          × (board.chip.type_number ≡ number id)
          × (get_command_line_parameters_for_memories e
              ≡ some (map dev_convert_memory_to_commandline_parameter board.memories))
    selects none f h = absurd (none-ne-some e h)
    selects (some board) f h =
        let same = some-injective (record { boards = c.boards; selected = some board }) e h in
        (
          board,
          ap (λ (x : Configuration). x.selected) (sym same),
          find_board-number id c.boards board f,
          ap get_command_line_parameters_for_memories (sym same),
        )

parameters_example :
    dev_convert_memory_to_commandline_parameter (generate_desc_memory 1) ≡ codes "-b 42 -u 69"
unfolding dev_convert_memory_to_commandline_parameter generate_desc_memory
parameters_example = refl
