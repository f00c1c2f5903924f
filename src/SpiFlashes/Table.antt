-- ===== src/SpiFlashes/Table.antt =====
-- site_scons/spi_flashes.py: the loop of `spiflashes_action` over the nodes "SerialFlash", and the
-- two files that it writes.
use org_muhkuh_tools_flasher.Common.{
  ℕ, Bool, false, ◌||◌, Option, none, some, List, [], ◌∷◌, ◌++◌, ltb, length, if◌then◌else◌, ◌>>=◌,
}
use org_muhkuh_tools_flasher.Common.Words.{Word, eq_word}
use org_muhkuh_tools_flasher.SpiFlashes.Values.{FlashNode}
use org_muhkuh_tools_flasher.SpiFlashes.Entries.{Entry, read_entry, check_entry}
use org_muhkuh_tools_flasher.SpiFlashes.Commands.{erase_chip, init0, init1, id_send, LayoutMode}
use org_muhkuh_tools_flasher.SpiFlashes.Lines.{flash_lines}

-- `aMaxSize`
pub record MaxSizes : Type 0 where
  pub max_name : ℕ
  pub max_erase_chip : ℕ
  pub max_init0 : ℕ
  pub max_init1 : ℕ
  pub max_id : ℕ

-- The variables of the loop: `aMaxSize`, `aFlashNames` and `aFlashes`.
pub record Table (N : Type 0) : Type 0 where
  pub sizes : MaxSizes
  pub names : List Word
  pub flashes : List (Entry N × LayoutMode)

-- The values for the placeholders of the header file.
pub record Header : Type 0 where
  pub elements : ℕ
  pub sizeof : MaxSizes

abbrev pub is_member : Word → List Word → Bool
is_member w [] = false
is_member w (v ∷ vs) = eq_word w v || is_member w vs

abbrev pub initial : {N : Type 0} → Table N
initial = record {
  sizes = record { max_name = 21; max_erase_chip = 0; max_init0 = 0; max_init1 = 0; max_id = 0 };
  names = [];
  flashes = [];
}

abbrev pub maximum : ℕ → ℕ → ℕ
maximum new old = if ltb old new then new else old

unfoldable pub update_sizes : {N : Type 0} → Entry N → MaxSizes → MaxSizes
update_sizes entry sizes = record {
  max_name = maximum (length entry.name) sizes.max_name;
  max_erase_chip = maximum (length (entry.arrays erase_chip)) sizes.max_erase_chip;
  max_init0 = maximum (length (entry.arrays init0)) sizes.max_init0;
  max_init1 = maximum (length (entry.arrays init1)) sizes.max_init1;
  max_id = maximum (length (entry.arrays id_send)) sizes.max_id;
}

module _ {N : Type 0} (int : Word → Option N) (len : ℕ → N) where
  -- One round of the loop. `none` is an exception.
  unfoldable pub add_flash : FlashNode → Table N → Option (Table N)
  unfolding update_sizes
  add_flash node table = do
    entry ← read_entry int (len 0) node
    (entry, mode) ← if is_member entry.name table.names then none else check_entry int (len 0) entry
    some (record {
      sizes = update_sizes entry table.sizes;
      names = table.names ++ entry.name ∷ [];
      flashes = table.flashes ++ (entry, mode) ∷ [];
    })

  unfoldable pub add_flashes : List FlashNode → Table N → Option (Table N)
  unfolding add_flash
  add_flashes [] table = some table
  add_flashes (node ∷ nodes) table = do table ← add_flash node table; add_flashes nodes table

  -- The lines between the head and the footer of the table, and the values of the header file.
  unfoldable pub spiflashes_action :
      (N → Word) → (N → Word) → List FlashNode → Option (List Word × Header)
  unfolding add_flashes
  spiflashes_action decimal hex nodes = do
    table ← add_flashes nodes initial
    some (
      flash_lines len decimal hex table.flashes,
      record { elements = length table.flashes; sizeof = table.sizes },
    )
