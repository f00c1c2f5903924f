-- ===== src/Crc/Tests.antt =====
-- The checksums that the comment of `generate_binary_file` lists.
use org_muhkuh_tools_flasher.Common.{
  ℕ, ◌≡◌, ◌≢◌, refl, Bool, true, false, some, List, [], ◌∷◌, ◌==◌, map, arith,
}
use org_muhkuh_tools_flasher.Crc.{calc_rarety, generate_crc_from_input_int}
use org_muhkuh_tools_flasher.Crc.Syndrome.{flip_all}
use org_muhkuh_tools_flasher.Crc.Detection.{calc_rarety-flip_all}

abbrev bits : List ℕ → List Bool
bits = map (λ n. n == 1)

-- 0xffffff13 and 0x38311e13
first_input :
    generate_crc_from_input_int 4294967059 ≡ some (bits (0 ∷ 0 ∷ 1 ∷ 0 ∷ 1 ∷ 0 ∷ 0 ∷ 1 ∷ []))
unfolding generate_crc_from_input_int
first_input = refl

last_input :
    generate_crc_from_input_int 942743059 ≡ some (bits (1 ∷ 1 ∷ 1 ∷ 1 ∷ 1 ∷ 1 ∷ 0 ∷ 1 ∷ []))
unfolding generate_crc_from_input_int
last_input = refl

abbrev data_word : List Bool
data_word =
    true
    ∷ map (λ (n : ℕ). false)
        (0 ∷ 0 ∷ 0 ∷ 0 ∷ 0 ∷ 0 ∷ 0 ∷ 0 ∷ 0 ∷ 0 ∷ 0 ∷ 0 ∷ 0 ∷ 0 ∷ 0 ∷ 0 ∷ 0 ∷ 0 ∷ 0 ∷ 0 ∷ 0 ∷ 0 ∷ 0
          ∷ 0 ∷ 0 ∷ 0 ∷ 0 ∷ 0 ∷ 0 ∷ 0 ∷ 0 ∷ 0 ∷ 0 ∷ 0 ∷ 0 ∷ 0 ∷ 0 ∷ 0 ∷ 0 ∷ 0 ∷ 0 ∷ 0 ∷ 0 ∷ 0 ∷ 0
          ∷ 0 ∷ 0 ∷ 0 ∷ 0 ∷ 0 ∷ 0 ∷ 0 ∷ 0 ∷ 0 ∷ 0 ∷ 0 ∷ 0 ∷ 0 ∷ 0 ∷ 0 ∷ 0 ∷ 0 ∷ 0 ∷ [])

calc_rarety-flip_all_example :
    calc_rarety (flip_all (5 ∷ 63 ∷ []) data_word) ≢ calc_rarety data_word
calc_rarety-flip_all_example =
    calc_rarety-flip_all data_word (5 ∷ 63 ∷ []) (omega arith) (omega arith, (omega arith, tt))
      (((λ e. omega (arith, e)), tt), (tt, tt)) (omega arith) (omega arith)

abbrev previous : List Bool
previous = bits (0 ∷ 0 ∷ 1 ∷ 0 ∷ 1 ∷ 0 ∷ 0 ∷ 1 ∷ [])

abbrev next : List Bool
next = bits (1 ∷ 1 ∷ 0 ∷ 1 ∷ 0 ∷ 0 ∷ 0 ∷ 0 ∷ [])
