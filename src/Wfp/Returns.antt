-- ===== src/Wfp/Returns.antt =====
-- With parts of a multiple of 4 KiB the files are found, whatever the generator gives.
use org_muhkuh_tools_flasher.Common.{
  ℕ, zero, suc, ◌+◌, ◌-◌, ◌*◌, ◌/◌, ◌≤◌, ◌<◌, ◌≡◌, refl, true, false, some, List, [], ◌∷◌, ◌++◌,
  ltb, arith, length, ◌==◌, if◌then◌else◌,
}
use org_muhkuh_tools_flasher.Wfp.Sizes.{
  Range, in_order, but_last, last_end, gap, share, max_file_size, random_file, place_files,
  last_gap, is_okay, get_random_file_sizes,
}
use org_muhkuh_tools_flasher.Wfp.Placed.{IsPlaced, randrange-one, randrange-lt}
use org_muhkuh_tools_flasher.Wfp.Runs.{place_files-Run, Placed, Run-Placed}

below_div : (q c n : ℕ) → 0 < n → q * n ≤ c → q ≤ c / n
below_div q c n h l = grind arith

div_below : (c n : ℕ) → 0 < n → c / n * n ≤ c
div_below c n h = grind arith

share_next : (idx n s : ℕ) → 0 < n → idx * s / n + s / n ≤ suc idx * s / n
share_next idx n s h =
    below_div (idx * s / n + s / n) (suc idx * s) n h
      (let a = div_below (idx * s) n h in let b = div_below s n h in grind arith)

module _ (random : ℕ → ℕ) (file_number flash_size puffer max_size : ℕ)
    (some_files : 0 < file_number) (room : puffer + 2 ≤ flash_size / file_number)
    (large : 2 ≤ max_size) where
  pub random_file-found :
      (idx : ℕ)
      → (f : Range) × (random_file random file_number flash_size puffer max_size idx ≡ some f)
  unfolding random_file
  random_file-found idx =
      let wide : 1 < max_file_size file_number flash_size puffer max_size = ground arith in
      let (size, p) =
        randrange-lt 1 (max_file_size file_number flash_size puffer max_size) 1 (random (2 * idx))
          wide in
      let (s1, s2) =
        randrange-one 1 (max_file_size file_number flash_size puffer max_size) (random (2 * idx))
          size p in
      let fits : max_file_size file_number flash_size puffer max_size ≤ flash_size / file_number =
        ground arith in
      let next = share_next idx file_number flash_size some_files in
      let (offset, q) =
        randrange-lt (share file_number flash_size idx / 4 * 4)
          (share file_number flash_size (suc idx) - size) 4 (random (2 * idx + 1)) (omega arith) in
      (record { offset = offset; end_offset = offset + size; size = size }, rw p (rw q refl))

  place_files-found :
      (rounds idx current : ℕ)
      → (fs es : List Range) × (place_files random file_number flash_size puffer max_size rounds idx
            current
          ≡ some (fs, es))
  unfolding place_files
  place_files-found zero idx current = ([], [], refl)
  place_files-found (suc rounds) idx current =
      let (f, p) = random_file-found idx in
      let (fs, es, q) =
        place_files-found rounds (suc idx)
          (if ltb current f.offset then f.end_offset else current) in
      (f ∷ fs, (if ltb current f.offset then gap current f.offset ∷ es else es), rw p (rw q refl))

quotient_of : (q n c : ℕ) → 0 < n → c ≡ q * n → c / n ≡ q
quotient_of q n c h e = grind arith

in_order-but_last : (fs : List Range) → in_order fs ≡ true → in_order (but_last fs) ≡ true
unfolding in_order but_last
in_order-but_last [] h = refl
in_order-but_last (f ∷ []) h = refl
in_order-but_last (f ∷ g ∷ []) h = refl
in_order-but_last (f ∷ g ∷ k ∷ fs) h =
    let i = in_order-but_last (g ∷ k ∷ fs) (ground arith) in ground (arith, i)

module _ (file_number part puffer max_size : ℕ) (some_files : 0 < file_number) where
  abbrev flash : ℕ
  flash = file_number * (4 * part)

  share_whole : (idx : ℕ) → share file_number flash idx ≡ idx * (4 * part)
  share_whole idx =
      quotient_of (idx * (4 * part)) file_number (idx * flash) some_files (grind arith)

  -- A file starts in its part, and ends in front of the next one.
  in_part :
      (idx : ℕ) (f : Range)
      → IsPlaced file_number flash puffer max_size idx f
      → (idx * (4 * part) ≤ f.offset) × (f.end_offset < suc idx * (4 * part))
  in_part idx f p =
      let a = share_whole idx in
      let b = share_whole (suc idx) in
      let m : idx * (4 * part) ≡ 4 * (idx * part) = grind arith in (omega arith, omega arith)

  Placed-in_order :
      (idx : ℕ) (fs : List Range)
      → Placed file_number flash puffer max_size idx fs
      → in_order fs ≡ true
  unfolding in_order
  Placed-in_order idx [] p = refl
  Placed-in_order idx (f ∷ []) p = refl
  Placed-in_order idx (f ∷ g ∷ fs) (p, (q, ps)) =
      let rest = Placed-in_order (suc idx) (g ∷ fs) (q, ps) in
      let a = in_part idx f p in let b = in_part (suc idx) g q in ground (arith, rest, a.1, b.0)

  Placed-last_end :
      (idx lo : ℕ) (fs : List Range)
      → Placed file_number flash puffer max_size idx fs
      → lo ≤ idx * (4 * part)
      → last_end lo fs ≤ (idx + length fs) * (4 * part)
  unfolding last_end
  Placed-last_end idx lo [] p h = let e : idx + 0 ≡ idx = omega arith in rw e h
  Placed-last_end idx lo (f ∷ fs) (p, ps) h =
      let a = in_part idx f p in
      let i = Placed-last_end (suc idx) f.end_offset fs ps (omega arith) in
      let e : suc idx + length fs ≡ idx + suc (length fs) = omega arith in rw (← e) i

  -- If the part of each file is a multiple of 4 KiB and has room for the buffer and 2 KiB, and
  -- files of 1 KiB are allowed: the files are found, whatever the generator gives, and each ends
  -- in front of the next one.
  pub get_random_file_sizes-returns :
      (random : ℕ → ℕ)
      → puffer + 2 ≤ 4 * part
      → 2 ≤ max_size
      → (fs es : List Range) × (get_random_file_sizes random file_number flash puffer max_size
          ≡ some (fs, es))
        × (in_order fs ≡ true)
  unfolding get_random_file_sizes is_okay
  get_random_file_sizes-returns random room large =
      let parts : flash / file_number ≡ 4 * part =
        quotient_of (4 * part) file_number flash some_files (grind arith) in
      let (fs, gaps, e) =
        place_files-found random file_number flash puffer max_size some_files (rw parts room) large
          file_number 0 0 in
      let (run, n) =
        place_files-Run file_number flash puffer max_size random file_number 0 0 fs gaps e in
      let placed = Run-Placed file_number flash puffer max_size 0 0 fs gaps run in
      let ordered = Placed-in_order 0 fs placed in
      let first = in_order-but_last fs ordered in
      let z : (file_number == 0) ≡ false = ground arith in
      let end : last_end 0 fs ≤ (0 + length fs) * (4 * part) =
        Placed-last_end 0 0 fs placed (omega arith) in
      let m : 0 + length fs ≡ file_number = omega arith in
      let end' : last_end 0 fs ≤ flash = rw m at end in
      let fits : ltb flash (last_end 0 fs) ≡ false = ground (arith, end') in
      (fs, gaps ++ last_gap flash fs, rw z (rw e (rw first (rw fits refl))), ordered)
