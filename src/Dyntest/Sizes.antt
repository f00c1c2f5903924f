-- ===== src/Dyntest/Sizes.antt =====
-- The size of the test data.
use org_muhkuh_tools_flasher.Common.{
  ◌≡◌, refl, true, some, [], ◌∷◌, ◌⊎◌, inl, inr, arith, Bool-cases,
}
use org_muhkuh_tools_flasher.Common.Words.{Word}
use org_muhkuh_tools_flasher.Dyntest.{
  Memory, Size, bytes, text, Test, le_text, le_size, smaller, init_params, init_params_global,
}

le_text_refl : (s : Word) → le_text s s ≡ true
le_text_refl [] = refl
le_text_refl (c ∷ s) = ground (arith, le_text_refl s)

le_size_refl : (s : Size) → le_size s s ≡ true
unfolding le_size
le_size_refl (bytes n) = ground arith
le_size_refl (text s) = le_text_refl s

smaller-le :
    (a b : Size) → (le_size (smaller a b) b ≡ true) × ((smaller a b ≡ a) ⊎ (smaller a b ≡ b))
unfolding smaller
smaller-le a b = elim (Bool-cases (le_size a b)) [
  | inl e ↦ (rw (e, e) refl, rw e (inl refl))
  | inr e ↦ (rw e (le_size_refl b), rw e (inr refl))
]

-- Whatever the size that is asked for and the size of the memory are, numbers or texts: after
-- `init_params` the size of the test data is one of the two, is not greater than that of the
-- memory in the order of Python 2, and the test may be run.
pub init_params-size :
    (plugin : Word) (memory : Memory) (size : Size) (path binary : Word) (t : Test)
    → (s : Size) × ((init_params plugin memory size path binary t).test_binary_size ≡ some s)
      × (le_size s memory.size ≡ true)
      × ((s ≡ size) ⊎ (s ≡ memory.size))
      × ((init_params plugin memory size path binary t).bool_params_init ≡ true)
unfolding init_params init_params_global
init_params-size plugin memory size path binary t =
    let (l, c) = smaller-le size memory.size in (smaller size memory.size, refl, l, c, refl)
