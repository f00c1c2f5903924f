-- ===== src/Wfp/Sizes.antt =====
-- `get_random_file_sizes` of WFP/wfp_test_flash.py: where the random files of a test lie in a flash, and what
-- stays empty. Sizes and offsets are numbers of KiB, as the caller has them.
use org_muhkuh_tools_flasher.Common.{
  ℕ, zero, suc, ◌+◌, ◌-◌, ◌*◌, ◌/◌, ◌%◌, Bool, true, not, ◌&&◌, Option, none, some, List, [], ◌∷◌,
  ◌++◌, ltb, ◌==◌, if◌then◌else◌, ◌>>=◌,
}

-- A file, or an empty range, of a flash.
pub record Range : Type 0 where
  pub offset : ℕ
  pub end_offset : ℕ
  pub size : ℕ

-- `random.randrange(start, stop, step)`, with a number that the generator gives; an empty range raises.
unfoldable pub randrange : ℕ → ℕ → ℕ → ℕ → Option ℕ
randrange start stop step drawn =
    if ltb start stop
    then some (start + step * (drawn % ((stop - start + (step - 1)) / step)))
    else none

-- What is empty between two offsets.
abbrev pub gap : ℕ → ℕ → Range
gap start stop = record { offset = start; end_offset = stop; size = stop - start }

-- `not files[i - 1]['end_offset'] < files[i]['offset']` for no `i`.
unfoldable pub in_order : List Range → Bool
in_order [] = true
in_order (f ∷ []) = true
in_order (f ∷ g ∷ fs) = let rest = in_order (g ∷ fs) in ltb f.end_offset g.offset && rest

unfoldable pub but_last : List Range → List Range
but_last [] = []
but_last (f ∷ []) = []
but_last (f ∷ g ∷ fs) = f ∷ but_last (g ∷ fs)

unfoldable pub last_end : ℕ → List Range → ℕ
last_end current [] = current
last_end current (f ∷ fs) = last_end f.end_offset fs

-- What is empty behind the last file.
unfoldable pub last_gap : ℕ → List Range → List Range
unfolding last_end
last_gap flash_size files =
    if ltb (last_end 0 files) flash_size then gap (last_end 0 files) flash_size ∷ [] else []

-- The checks at the end leave out the last file, except for its end.
unfoldable pub is_okay : ℕ → List Range → Bool
unfolding in_order but_last last_end
is_okay flash_size files = in_order (but_last files) && not (ltb flash_size (last_end 0 files))

module _ (file_number flash_size : ℕ) where
  -- The start of the part of a file.
  abbrev pub share : ℕ → ℕ
  share idx = idx * flash_size / file_number

  abbrev pub max_file_size : ℕ → ℕ → ℕ
  max_file_size puffer max_size =
      if ltb max_size (flash_size / file_number - puffer)
      then max_size
      else flash_size / file_number - puffer

module _ (random : ℕ → ℕ) (file_number flash_size puffer max_size : ℕ) where
  -- The file of an index; each takes two numbers of the generator.
  unfoldable pub random_file : ℕ → Option Range
  unfolding randrange
  random_file idx = do
    size ← randrange 1 (max_file_size file_number flash_size puffer max_size) 1 (random (2 * idx))
    offset ←
        randrange (share file_number flash_size idx / 4 * 4)
          (share file_number flash_size (suc idx) - size) 4 (random (2 * idx + 1))
    some (record { offset = offset; end_offset = offset + size; size = size })

  -- The loop, with the rounds that are left, the index and `current_offset`.
  unfoldable pub place_files : ℕ → ℕ → ℕ → Option (List Range × List Range)
  unfolding random_file
  place_files zero idx current = some ([], [])
  place_files (suc rounds) idx current = do
    file ← random_file idx
    (files, empty) ←
        place_files rounds (suc idx) (if ltb current file.offset then file.end_offset else current)
    some (file ∷ files, if ltb current file.offset then gap current file.offset ∷ empty else empty)

  -- `none` is an exception or an exit; without a file there is no last one.
  unfoldable pub get_random_file_sizes : Option (List Range × List Range)
  unfolding place_files last_gap is_okay
  get_random_file_sizes = if file_number == 0 then none else (do
    (files, empty) ← place_files file_number 0 0
    if is_okay flash_size files then some (files, empty ++ last_gap flash_size files) else none)
