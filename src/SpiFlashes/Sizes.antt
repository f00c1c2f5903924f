-- ===== src/SpiFlashes/Sizes.antt =====
-- The sizes of the arrays of the SPI flash table.
use org_muhkuh_tools_flasher.Common.{ℕ, ◌≤◌, List, [], ◌∷◌, length, arith, All}
use org_muhkuh_tools_flasher.SpiFlashes.Entries.{Entry}
use org_muhkuh_tools_flasher.SpiFlashes.Commands.{erase_chip, init0, init1, id_send, LayoutMode}
use org_muhkuh_tools_flasher.SpiFlashes.Table.{MaxSizes, maximum, update_sizes}

-- The arrays of the table are large enough for the entry.
pub record Fits {N : Type 0} (sizes : MaxSizes) (entry : Entry N) : Type 0 where
  pub name_fits : length entry.name ≤ sizes.max_name
  pub erase_chip_fits : length (entry.arrays erase_chip) ≤ sizes.max_erase_chip
  pub init0_fits : length (entry.arrays init0) ≤ sizes.max_init0
  pub init1_fits : length (entry.arrays init1) ≤ sizes.max_init1
  pub id_fits : length (entry.arrays id_send) ≤ sizes.max_id

maximum-bounds : (a b : ℕ) → (a ≤ maximum a b) × (b ≤ maximum a b)
maximum-bounds a b = (ground arith, ground arith)

module _ {N : Type 0} where
  update_sizes-Fits : (entry : Entry N) (sizes : MaxSizes) → Fits (update_sizes entry sizes) entry
  unfolding update_sizes
  update_sizes-Fits entry sizes = record {
    name_fits = (maximum-bounds _ sizes.max_name).0;
    erase_chip_fits = (maximum-bounds _ sizes.max_erase_chip).0;
    init0_fits = (maximum-bounds _ sizes.max_init0).0;
    init1_fits = (maximum-bounds _ sizes.max_init1).0;
    id_fits = (maximum-bounds _ sizes.max_id).0;
  }

  Fits-update_sizes :
      (entry new : Entry N) (sizes : MaxSizes)
      → Fits sizes entry
      → Fits (update_sizes new sizes) entry
  unfolding update_sizes
  Fits-update_sizes entry new sizes f = record {
    name_fits = omega (arith, f.name_fits, maximum-bounds (length new.name) sizes.max_name);
    erase_chip_fits = omega (
      arith,
      f.erase_chip_fits,
      maximum-bounds (length (new.arrays erase_chip)) sizes.max_erase_chip,
    );
    init0_fits =
        omega (arith, f.init0_fits, maximum-bounds (length (new.arrays init0)) sizes.max_init0);
    init1_fits =
        omega (arith, f.init1_fits, maximum-bounds (length (new.arrays init1)) sizes.max_init1);
    id_fits = omega (arith, f.id_fits, maximum-bounds (length (new.arrays id_send)) sizes.max_id);
  }

  -- The sizes after the entries of a list.
  abbrev pub sizes_after : List (Entry N × LayoutMode) → MaxSizes → MaxSizes
  sizes_after [] sizes = sizes
  sizes_after (f ∷ fs) sizes = sizes_after fs (update_sizes f.0 sizes)

  Fits-sizes_after :
      (entry : Entry N) (fs : List (Entry N × LayoutMode)) (sizes : MaxSizes)
      → Fits sizes entry
      → Fits (sizes_after fs sizes) entry
  Fits-sizes_after entry [] sizes f = f
  Fits-sizes_after entry (g ∷ fs) sizes f =
      Fits-sizes_after entry fs _ (Fits-update_sizes entry g.0 sizes f)

  pub sizes_after-Fits :
      (fs : List (Entry N × LayoutMode)) (sizes : MaxSizes)
      → All (λ f. Fits (sizes_after fs sizes) f.0) fs
  sizes_after-Fits [] sizes = tt
  sizes_after-Fits (f ∷ fs) sizes =
      (Fits-sizes_after f.0 fs _ (update_sizes-Fits f.0 sizes), sizes_after-Fits fs _)

  pub sizes_after-name :
      (fs : List (Entry N × LayoutMode)) (sizes : MaxSizes)
      → sizes.max_name ≤ (sizes_after fs sizes).max_name
  unfolding update_sizes
  sizes_after-name [] sizes = omega arith
  sizes_after-name (f ∷ fs) sizes = omega (
    arith,
    sizes_after-name fs (update_sizes f.0 sizes),
    maximum-bounds (length f.0.name) sizes.max_name,
  )
