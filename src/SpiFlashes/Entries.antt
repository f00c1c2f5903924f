-- ===== src/SpiFlashes/Entries.antt =====
-- site_scons/spi_flashes.py: the entry that `spiflashes_action` makes of one node "SerialFlash".
use org_muhkuh_tools_flasher.Common.{
  ℕ, Bool, true, ◌&&◌, Option, none, some, List, [], ◌∷◌, ◌==◌, length, if◌then◌else◌, ◌>>=◌,
}
use org_muhkuh_tools_flasher.Common.Words.{Word, codes}
use org_muhkuh_tools_flasher.SpiFlashes.Values.{
  Element, FlashNode, Value, word, array, Datatype, number_array, get_value,
}
use org_muhkuh_tools_flasher.SpiFlashes.Commands.{
  Command, path, is_optional, single_byte_commands, id_entries, LayoutMode, layout_mode, read_array,
  write_enable, page_program, buffer_fill, buffer_write, erase_and_page_program, erase_page,
  erase_sector, erase_chip, read_status, init0, init1, id_send, id_mask, id_magic,
}

-- An entry. `read_length` is the length of an array before the default values are set.
pub record Entry (N : Type 0) : Type 0 where
  pub description : Option Word
  pub notes : List Word
  pub name : Word
  pub size : N
  pub clock : N
  pub page_size : N
  pub sector_pages : N
  pub ignore_bytes : N
  pub status_ready_mask : N
  pub status_ready_value : N
  pub mode : Word
  pub arrays : Command → List N
  pub read_length : Command → ℕ

-- The notes that have a text.
unfoldable pub note_texts : List Element → List Word
note_texts [] = []
note_texts (node ∷ nodes) =
    let rest = note_texts nodes in elim node.text [ none ↦ rest | some text ↦ text ∷ rest ]

-- The loops that raise at the first array of another length.
unfoldable pub all_length : {N : Type 0} → ℕ → (Command → List N) → List Command → Bool
all_length n arrays [] = true
all_length n arrays (c ∷ cs) = length (arrays c) == n && all_length n arrays cs

-- Each of these commands has one byte, and all ID entries have the same size.
unfoldable pub passes : {N : Type 0} → (Command → List N) → Bool
unfolding all_length
passes arrays =
    all_length 1 arrays single_byte_commands
    && all_length (length (arrays id_send)) arrays id_entries

module _ {N : Type 0} (int : Word → Option N) (empty : N) where
  get_string : FlashNode → Word → Option Word
  get_string flash p = do
    value ← get_value int flash p Datatype.string
    elim value [ word w ↦ some w | _ ↦ none ]

  get_number : FlashNode → Word → Option N
  get_number flash p = do
    value ← get_value int flash p Datatype.number
    elim value [ Value.number n ↦ some n | _ ↦ none ]

  get_array : FlashNode → Command → Option (List N)
  get_array flash c = do
    value ← get_value int flash (path c) number_array
    elim value [ array ns ↦ some ns | _ ↦ none ]

  all_arrays :
      List N
      → List N
      → List N
      → List N
      → List N
      → List N
      → List N
      → List N
      → List N
      → List N
      → List N
      → List N
      → List N
      → List N
      → List N
      → Command
      → List N
  all_arrays a b c d e f g h i j k l m n o read_array = a
  all_arrays a b c d e f g h i j k l m n o write_enable = b
  all_arrays a b c d e f g h i j k l m n o page_program = c
  all_arrays a b c d e f g h i j k l m n o buffer_fill = d
  all_arrays a b c d e f g h i j k l m n o buffer_write = e
  all_arrays a b c d e f g h i j k l m n o erase_and_page_program = f
  all_arrays a b c d e f g h i j k l m n o erase_page = g
  all_arrays a b c d e f g h i j k l m n o erase_sector = h
  all_arrays a b c d e f g h i j k l m n o erase_chip = i
  all_arrays a b c d e f g h i j k l m n o read_status = j
  all_arrays a b c d e f g h i j k l m n o init0 = k
  all_arrays a b c d e f g h i j k l m n o init1 = l
  all_arrays a b c d e f g h i j k l m n o id_send = m
  all_arrays a b c d e f g h i j k l m n o id_mask = n
  all_arrays a b c d e f g h i j k l m n o id_magic = o

  -- The values that are arrays.
  unfoldable pub read_arrays : FlashNode → Option (Command → List N)
  unfolding get_array get_value all_arrays
  read_arrays flash = do
    a ← get_array flash read_array
    b ← get_array flash write_enable
    c ← get_array flash page_program
    d ← get_array flash buffer_fill
    e ← get_array flash buffer_write
    f ← get_array flash erase_and_page_program
    g ← get_array flash erase_page
    h ← get_array flash erase_sector
    i ← get_array flash erase_chip
    j ← get_array flash read_status
    k ← get_array flash init0
    l ← get_array flash init1
    m ← get_array flash id_send
    n ← get_array flash id_mask
    o ← get_array flash id_magic
    some (all_arrays a b c d e f g h i j k l m n o)

  -- All values of `aEntryNames`, after the description and the notes. The order in which the
  -- values are read is that of a dictionary: each failure is an exception, whatever the order.
  unfoldable pub read_entry : FlashNode → Option (Entry N)
  unfolding get_string get_number read_arrays note_texts get_value
  read_entry flash = do
    described ← flash.find (codes "Description")
    name ← get_string flash (codes ".@name")
    size ← get_number flash (codes ".@size")
    clock ← get_number flash (codes ".@clock")
    page_size ← get_number flash (codes "Layout@pageSize")
    sector_pages ← get_number flash (codes "Layout@sectorPages")
    mode ← get_string flash (codes "Layout@mode")
    ignore_bytes ← get_number flash (codes "Read@ignoreBytes")
    ready_mask ← get_number flash (codes "Status@statusReadyMask")
    ready_value ← get_number flash (codes "Status@statusReadyValue")
    arrays ← read_arrays flash
    some (record {
      description = described.text;
      notes = note_texts (flash.findall (codes "Note"));
      name = name;
      size = size;
      clock = clock;
      page_size = page_size;
      sector_pages = sector_pages;
      ignore_bytes = ignore_bytes;
      status_ready_mask = ready_mask;
      status_ready_value = ready_value;
      mode = mode;
      arrays = arrays;
      read_length = λ c. length (arrays c);
    })

  -- An empty array of an optional command becomes the empty command.
  unfoldable pub fill_array : Bool → List N → List N
  fill_array optional [] = if optional then empty ∷ [] else []
  fill_array optional (n ∷ ns) = n ∷ ns

  unfoldable pub fill : (Command → List N) → Command → List N
  unfolding fill_array
  fill arrays c = fill_array (is_optional c) (arrays c)

  -- The default values and the checks of an entry, and the translation of its mode.
  unfoldable pub check_entry : Entry N → Option (Entry N × LayoutMode)
  unfolding fill passes layout_mode
  check_entry entry =
      let filled = record entry { arrays = fill entry.arrays } in
      if passes filled.arrays
      then (do mode ← layout_mode filled.mode; some (filled, mode))
      else none
