-- ===== src/SpiFlashes/Values.antt =====
-- site_scons/spi_flashes.py, `get_value`: one value of a flash description. The XML library is
-- taken by what its nodes answer, and Python's `int(text, 0)` is a parameter.
use org_muhkuh_tools_flasher.Common.{ℕ, Option, none, some, List, [], ◌∷◌, ◌>>=◌}
use org_muhkuh_tools_flasher.Common.Words.{Word, split, strip}

-- A node of the tree that was found: its text, and its attributes by their names.
pub record Element : Type 0 where
  pub text : Option Word
  pub attrib : Word → Option Word

-- A node "SerialFlash": the first node at a path, and all nodes at a path.
pub record FlashNode : Type 0 where
  pub find : Word → Option Element
  pub findall : Word → List Element

-- DATATYPE_STRING, DATATYPE_NUMBER and DATATYPE_NUMBER_ARRAY
pub data Datatype : Type 0 where
  string : Datatype
  number : Datatype
  number_array : Datatype

pub data Value (N : Type 0) : Type 0 where
  word : Word → Value N
  number : N → Value N
  array : List N → Value N

abbrev at_sign : ℕ
at_sign = b'@'

abbrev comma : ℕ
comma = b','

-- The text of the node, or its attribute. An invalid path, a missing node and a missing attribute
-- raise, as does `strip` of a missing text.
unfoldable pub get_text : FlashNode → List Word → Option Word
get_text flash [] = none
get_text flash (path ∷ []) = do node ← flash.find path; text ← node.text; some (strip text)
get_text flash (path ∷ (name ∷ [])) = do node ← flash.find path; node.attrib name
get_text flash (path ∷ (name ∷ (more ∷ rest))) = none

module _ {N : Type 0} (int : Word → Option N) where
  -- `[int(strByte.strip(), 0) for strByte in ...]`
  unfoldable pub int_all : List Word → Option (List N)
  int_all [] = some []
  int_all (byte ∷ bytes) = do n ← int (strip byte); ns ← int_all bytes; some (n ∷ ns)

  unfoldable pub convert : Datatype → Word → Option (Value N)
  unfolding int_all
  convert Datatype.string value = some (word value)
  convert Datatype.number value = do n ← int value; some (number n)
  convert number_array [] = some (array [])
  convert number_array (c ∷ value) = do ns ← int_all (split comma (c ∷ value)); some (array ns)

  -- `none` is an exception.
  unfoldable pub get_value : FlashNode → Word → Datatype → Option (Value N)
  unfolding get_text convert split
  get_value flash path type = do text ← get_text flash (split at_sign path); convert type text
