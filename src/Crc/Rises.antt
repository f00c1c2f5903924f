-- ===== src/Crc/Rises.antt =====
-- What the two comparisons of checksums count.
use org_muhkuh_tools_flasher.Common.{
  ℕ, suc, ◌+◌, ◌≤◌, ◌≡◌, refl, ap, Bool, true, false, some, List, [], ◌∷◌, ◌==◌, ltb, length, arith,
  Bool-cases, inl, inr,
}
use org_muhkuh_tools_flasher.Crc.{rises_none, rises_often, compare_two_crcs_good, compare_two_crcs}

-- The number of bits that change from 0 to 1.
abbrev pub rises : List Bool → List Bool → ℕ
rises (false ∷ xs) (true ∷ ys) = suc (rises xs ys)
rises (a ∷ xs) (b ∷ ys) = rises xs ys
rises _ _ = 0

rises_often-rises :
    (n : ℕ) (xs ys : List Bool) → n ≤ 2 → rises_often n xs ys ≡ ltb 2 (n + rises xs ys)
unfolding rises_often
rises_often-rises n [] ys h = ground arith
rises_often-rises n (a ∷ xs) [] h = ground arith
rises_often-rises n (false ∷ xs) (true ∷ ys) h = elim (Bool-cases (ltb 2 (n + 1))) [
  | inl t ↦ ground arith
  | inr f ↦ ground (arith, rises_often-rises (n + 1) xs ys (ground arith))
]
rises_often-rises n (true ∷ xs) (true ∷ ys) h = rises_often-rises n xs ys h
rises_often-rises n (true ∷ xs) (false ∷ ys) h = rises_often-rises n xs ys h
rises_often-rises n (false ∷ xs) (false ∷ ys) h = rises_often-rises n xs ys h

rises_none-rises : (xs ys : List Bool) → rises_none xs ys ≡ (rises xs ys == 0)
unfolding rises_none
rises_none-rises [] ys = refl
rises_none-rises (true ∷ xs) [] = refl
rises_none-rises (false ∷ xs) [] = refl
rises_none-rises (false ∷ xs) (true ∷ ys) = ground arith
rises_none-rises (true ∷ xs) (true ∷ ys) = rises_none-rises xs ys
rises_none-rises (true ∷ xs) (false ∷ ys) = rises_none-rises xs ys
rises_none-rises (false ∷ xs) (false ∷ ys) = rises_none-rises xs ys

-- For checksums of one size, `compare_two_crcs_good` returns 0 if no bit rises, and
-- `compare_two_crcs` if three bits rise at least.
pub compare_two_crcs-rises :
    (previous next : List Bool)
    → length previous ≡ length next
    → (compare_two_crcs_good previous next ≡ some (rises previous next == 0))
      × (compare_two_crcs previous next ≡ some (ltb 2 (rises previous next)))
unfolding compare_two_crcs_good compare_two_crcs
compare_two_crcs-rises previous next h =
    let same : (length previous == length next) ≡ true = ground arith in
    (
      rw same (ap some (rises_none-rises previous next)),
      rw (same, rises_often-rises 0 previous next (omega arith)) (ground arith),
    )
