-- ===== src/Wfp/Package.antt =====
-- TestWfpFlash and TestWfpOs: the files of a package, its description wfp.xml, and the commands.
use org_muhkuh_tools_flasher.Common.{
  ℕ, zero, suc, ◌-◌, ◌*◌, ◌/◌, Bool, true, false, not, Option, none, some, List, [], ◌∷◌, ◌++◌, leb,
  ◌==◌, length, map, if◌then◌else◌,
}
use org_muhkuh_tools_flasher.Common.Io.{Io, ◌>>=◌, ◌>>◌, return, raise, from_option}
use org_muhkuh_tools_flasher.Common.Words.{Word, codes}
use org_muhkuh_tools_flasher.Common.Decimals.{decimal}
use org_muhkuh_tools_flasher.Files.{Place, Disk, exists, mkdir, remove, write}
use org_muhkuh_tools_flasher.TestCases.Hexadecimal.{hexadecimal}
use org_muhkuh_tools_flasher.Logfiles.{temporary}
use org_muhkuh_tools_flasher.Wfp.Sizes.{Range, get_random_file_sizes}

-- A memory of the board. Its size is a number of bytes.
pub record Flash : Type 0 where
  pub b : ℕ
  pub u : ℕ
  pub cs : ℕ
  pub size : ℕ

-- A file of the package: its name, and its range in the flash in KiB.
pub record Data : Type 0 where
  pub file : Word
  pub range : Range

-- `CHIP_TYPE`
abbrev pub chip_types : List (ℕ × Word)
chip_types =
    (0, codes "UNKNOWN")
    ∷ (1, codes "NETX500")
    ∷ (2, codes "NETX500")
    ∷ (3, codes "NETX50")
    ∷ (5, codes "NETX10")
    ∷ (6, codes "NETX56")
    ∷ (7, codes "NETX56")
    ∷ (8, codes "NETX4000_RELAXED")
    ∷ (10, codes "NETX90_MPW")
    ∷ (11, codes "NETX4000")
    ∷ (12, codes "NETX4000")
    ∷ (13, codes "NETX90")
    ∷ (14, codes "NETX90")
    ∷ (15, codes "NETIOL")
    ∷ (16, codes "NETIOL")
    ∷ []

-- `FLASHER_BUS_ID`
abbrev flasher_bus_id : List (ℕ × Word)
flasher_bus_id =
    (0, codes "Parflash") ∷ (1, codes "Spi") ∷ (2, codes "IFlash") ∷ (3, codes "SDIO") ∷ []

-- The value of a key, if it is there.
unfoldable pub name_of : List (ℕ × Word) → ℕ → Option Word
name_of [] n = none
name_of ((k, w) ∷ rest) n = if k == n then some w else name_of rest n

-- `"%08X" % n`
abbrev upper_digit : ℕ → ℕ
upper_digit c = if leb b'a' c then c - 32 else c

zeros : ℕ → Word
zeros zero = []
zeros (suc n) = b'0' ∷ zeros n

unfoldable pub hexadecimal_8 : ℕ → Word
unfolding hexadecimal zeros
hexadecimal_8 n = let w = map upper_digit (hexadecimal n) in zeros (8 - length w) ++ w

-- The element tree of wfp.xml: the commands of a target, with the files and their offsets.
pub record FlashCommand : Type 0 where
  pub bus : Option Word
  pub unit : Word
  pub chip_select : Word
  pub data_files : List (Word × Word)

pub record Description : Type 0 where
  pub netx : Word
  pub flash_commands : List FlashCommand

unfoldable pub file_suffix : Flash → Word
unfolding decimal
file_suffix m = codes "b" ++ decimal m.b ++ codes "_u" ++ decimal m.u ++ codes "_cs" ++ decimal m.cs

abbrev pub wfp_dir : Place → Flash → Place
wfp_dir root m = (codes "wfp_archive_" ++ file_suffix m) ∷ temporary root

abbrev pub wfp_zip : Place → Flash → Place
wfp_zip root m = (codes "wfp_archive_" ++ file_suffix m ++ codes ".zip") ∷ temporary root

-- `{"file": "random_file_%i.bin" % i}` with the range of the index.
unfoldable pub test_files : ℕ → List Range → List Data
unfolding decimal
test_files i [] = []
test_files i (r ∷ rs) =
    record { file = codes "random_file_" ++ decimal i ++ codes ".bin"; range = r }
    ∷ test_files (suc i) rs

unfoldable pub empty_files : ℕ → List Range → List Data
unfolding decimal
empty_files i [] = []
empty_files i (r ∷ rs) =
    record { file = codes "empty_bin" ++ decimal i ++ codes ".bin"; range = r }
    ∷ empty_files (suc i) rs

unfoldable pub data_elements : List Data → List (Word × Word)
unfolding hexadecimal_8
data_elements [] = []
data_elements (d ∷ ds) =
    (d.file, codes "0x" ++ hexadecimal_8 (d.range.offset * 1024)) ∷ data_elements ds

unfoldable pub flash_element : Flash → List Data → FlashCommand
unfolding data_elements
flash_element m files = record {
  bus = name_of flasher_bus_id m.b;
  unit = decimal m.u;
  chip_select = decimal m.cs;
  data_files = data_elements files;
}

module _ {B : Type 0} where
  abbrev when : Bool → Io (Disk B) Unit → Io (Disk B) Unit
  when true m = m
  when false m = return tt

  -- `os.makedirs`
  unfoldable pub makedirs : Place → Io (Disk B) Unit
  unfolding exists mkdir ◌>>=◌
  makedirs [] d = raise d
  makedirs (name ∷ folder) d =
      (do when (not (exists folder d)) (makedirs folder); mkdir (name ∷ folder)) d

  -- With `shutil.rmtree`: the folder of the package is made anew, and its archive is removed.
  unfoldable pub fresh_folder : (Place → Io (Disk B) Unit) → Place → Place → Io (Disk B) Unit
  unfolding makedirs exists remove ◌>>=◌
  fresh_folder rmtree dir zip d = (do when (exists dir d) (rmtree dir); makedirs dir; remove_old) d
    where
      remove_old : Io (Disk B) Unit
      remove_old e = when (exists zip e) (remove zip) e

  -- With the data of a file of 0xff.
  unfoldable pub create_empty_files : (ℕ → B) → Place → List Data → Io (Disk B) Unit
  unfolding write ◌>>=◌
  create_empty_files erased dir [] = return tt
  create_empty_files erased dir (f ∷ fs) = do
    write (f.file ∷ dir) (erased (f.range.size * 1024))
    create_empty_files erased dir fs

  -- With the function of the random data, which no module defines under its name.
  unfoldable pub generate_files :
      (Place → ℕ → Io (Disk B) Unit) → Place → List Data → Io (Disk B) Unit
  unfolding ◌>>=◌
  generate_files generate dir [] = return tt
  generate_files generate dir (f ∷ fs) = do
    generate (f.file ∷ dir) (f.range.size * 1024)
    generate_files generate dir fs

  module _ (rmtree : Place → Io (Disk B) Unit) (generate : Place → ℕ → Io (Disk B) Unit)
      (erased : ℕ → B) (pretty : Description → Option B) where
    -- With the text of the element tree, which has no missing attribute. `pre_test_step`, with the files that it leaves in the attributes.
    unfoldable pub pre_test_step_wfp :
        (ℕ → ℕ) → Place → ℕ → Flash → Io (Disk B) (List Data × List Data)
    unfolding fresh_folder create_empty_files generate_files flash_element get_random_file_sizes
        write test_files empty_files name_of ◌>>=◌
    pre_test_step_wfp random root chip_id m = do
      fresh_folder rmtree (wfp_dir root m) (wfp_zip root m)
      (files, empty) ← from_option (get_random_file_sizes random 3 (m.size / 1024) 4 20)
      netx ← from_option (name_of chip_types chip_id)
      create_empty_files erased (wfp_dir root m) (empty_files 0 empty)
      generate_files generate (wfp_dir root m) (test_files 0 files)
      xml ← from_option (
          pretty
            (record { netx = netx; flash_commands = flash_element m (test_files 0 files) ∷ [] }))
      write (codes "wfp.xml" ∷ wfp_dir root m) xml
      return (test_files 0 files, empty_files 0 empty)

    -- TestWfpOs has the same step.
    unfoldable pub pre_test_step_os :
        (ℕ → ℕ) → Place → ℕ → Flash → Io (Disk B) (List Data × List Data)
    unfolding pre_test_step_wfp
    pre_test_step_os = pre_test_step_wfp
