-- ===== src/Jasonixer.antt =====
-- regression/common/SW_Test_flasher/src/class_jasonixer.py: the descriptions of chips and boards.
pub mod Boards
use org_muhkuh_tools_flasher.Common.{ℕ, Option, none, some, List, [], ◌∷◌}
use org_muhkuh_tools_flasher.Common.Words.{Word, codes}

-- A plug of a chip: {netx_port, netx_protocol}.
pub record Plug : Type 0 where
  pub port : Word
  pub protocol : Word

-- The number of a chip is 0 or given at first, and a text once it is read from the flasher.
pub data ChipNumber : Type 0 where
  number : ℕ → ChipNumber
  text : Word → ChipNumber

-- The dictionary of a chip. `it` is `tmp_iterator_detect`, which is missing at first.
pub record Chip : Type 0 where
  pub type_number : ChipNumber
  pub flasher_name : Word
  pub port : Word
  pub chip_name : Word
  pub type_name : Word
  pub type_identifier : Word
  pub interfaces : List Plug
  pub it : Option Word

-- An element of the argument `interfaces`: a list or a tuple of texts.
pub data Pair : Type 0 where
  list : List Word → Pair
  tuple : List Word → Pair

abbrev demo_interfaces : List Plug
demo_interfaces =
    record { port = codes "xJTAG"; protocol = codes "yJTAG" }
    ∷ record { port = codes "xUSB"; protocol = codes "yUSB" }
    ∷ record { port = codes "xUSB"; protocol = codes "yUART" }
    ∷ []

-- The check of one element: `type(ele) is not (tuple and list)` is `type(ele) is not list`.
unfoldable pub check_pair : Pair → Option Plug
check_pair (list (port ∷ (protocol ∷ []))) = some (record { port = port; protocol = protocol })
check_pair (list _) = none
check_pair (tuple _) = none

check_pairs : List Pair → Option (List Plug)
unfolding check_pair
check_pairs [] = some []
check_pairs (pair ∷ pairs) = elim (check_pair pair) [
  | none ↦ none
  | some plug ↦ elim (check_pairs pairs) [ none ↦ none | some plugs ↦ some (plug ∷ plugs) ]
]

-- `generate_desc_chip_if`; `none` is an exception.
unfoldable pub generate_desc_chip_if : Option (List Pair) → Option (List Plug)
unfolding check_pairs
generate_desc_chip_if none = some demo_interfaces
generate_desc_chip_if (some []) = some demo_interfaces
generate_desc_chip_if (some (pair ∷ pairs)) = check_pairs (pair ∷ pairs)

-- `if text:`, and the default otherwise.
abbrev or_default : Option Word → Word → Word
or_default none d = d
or_default (some []) d = d
or_default (some (c ∷ w)) d = c ∷ w

-- `generate_desc_empty_chip`
unfoldable pub generate_desc_empty_chip :
    Option ℕ → Option Word → Option (List Pair) → Option Word → Option Chip
unfolding generate_desc_chip_if
generate_desc_empty_chip num name interfaces tmp_port = elim (generate_desc_chip_if interfaces) [
  | none ↦ none
  | some plugs ↦ some (record {
    type_number = number (elim num [ none ↦ 0 | some n ↦ n ]);
    flasher_name = or_default name (codes "column_2_not_set");
    port = or_default tmp_port (codes "the minus p parameter");
    chip_name = codes "column_1_not_set";
    type_name = codes "column_3_not_set";
    type_identifier = codes "column_4_not_set";
    interfaces = plugs;
    it = none;
  })
]
