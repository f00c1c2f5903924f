-- ===== src/Crc/Taps.antt =====
-- regression/common/simpelTools/src/find_correct_crc.py, `calc_rarety`: the bits of the data that go
-- into each bit of the checksum.
use org_muhkuh_tools_flasher.Common.{ℕ, List, [], ◌∷◌}

-- `parity_enc_a0[0]`
abbrev pub taps_0 : List ℕ
taps_0 =
    0 ∷ 1 ∷ 3 ∷ 4 ∷ 6 ∷ 8 ∷ 10 ∷ 11 ∷ 13 ∷ 15 ∷ 17 ∷ 19 ∷ 21 ∷ 23 ∷ 25 ∷ 26 ∷ 28 ∷ 30 ∷ 32 ∷ 34 ∷ 36
    ∷ 38 ∷ 40 ∷ 42 ∷ 44 ∷ 46 ∷ 48 ∷ 50 ∷ 52 ∷ 54 ∷ 56 ∷ 57 ∷ 59 ∷ 61 ∷ 63 ∷ []

-- `parity_enc_a0[1]`
abbrev pub taps_1 : List ℕ
taps_1 =
    0 ∷ 2 ∷ 3 ∷ 5 ∷ 6 ∷ 9 ∷ 10 ∷ 12 ∷ 13 ∷ 16 ∷ 17 ∷ 20 ∷ 21 ∷ 24 ∷ 25 ∷ 27 ∷ 28 ∷ 31 ∷ 32 ∷ 35 ∷ 36
    ∷ 39 ∷ 40 ∷ 43 ∷ 44 ∷ 47 ∷ 48 ∷ 51 ∷ 52 ∷ 55 ∷ 56 ∷ 58 ∷ 59 ∷ 62 ∷ 63 ∷ []

-- `parity_enc_a0[2]`
abbrev pub taps_2 : List ℕ
taps_2 =
    1 ∷ 2 ∷ 3 ∷ 7 ∷ 8 ∷ 9 ∷ 10 ∷ 14 ∷ 15 ∷ 16 ∷ 17 ∷ 22 ∷ 23 ∷ 24 ∷ 25 ∷ 29 ∷ 30 ∷ 31 ∷ 32 ∷ 37 ∷ 38
    ∷ 39 ∷ 40 ∷ 45 ∷ 46 ∷ 47 ∷ 48 ∷ 53 ∷ 54 ∷ 55 ∷ 56 ∷ 60 ∷ 61 ∷ 62 ∷ 63 ∷ []

-- `parity_enc_a0[3]`
abbrev pub taps_3 : List ℕ
taps_3 =
    4 ∷ 5 ∷ 6 ∷ 7 ∷ 8 ∷ 9 ∷ 10 ∷ 18 ∷ 19 ∷ 20 ∷ 21 ∷ 22 ∷ 23 ∷ 24 ∷ 25 ∷ 33 ∷ 34 ∷ 35 ∷ 36 ∷ 37 ∷ 38
    ∷ 39 ∷ 40 ∷ 49 ∷ 50 ∷ 51 ∷ 52 ∷ 53 ∷ 54 ∷ 55 ∷ 56 ∷ []

-- `parity_enc_a0[4]`
abbrev pub taps_4 : List ℕ
taps_4 =
    11 ∷ 12 ∷ 13 ∷ 14 ∷ 15 ∷ 16 ∷ 17 ∷ 18 ∷ 19 ∷ 20 ∷ 21 ∷ 22 ∷ 23 ∷ 24 ∷ 25 ∷ 41 ∷ 42 ∷ 43 ∷ 44
    ∷ 45 ∷ 46 ∷ 47 ∷ 48 ∷ 49 ∷ 50 ∷ 51 ∷ 52 ∷ 53 ∷ 54 ∷ 55 ∷ 56 ∷ []

-- `parity_enc_a0[5]`
abbrev pub taps_5 : List ℕ
taps_5 =
    26 ∷ 27 ∷ 28 ∷ 29 ∷ 30 ∷ 31 ∷ 32 ∷ 33 ∷ 34 ∷ 35 ∷ 36 ∷ 37 ∷ 38 ∷ 39 ∷ 40 ∷ 41 ∷ 42 ∷ 43 ∷ 44
    ∷ 45 ∷ 46 ∷ 47 ∷ 48 ∷ 49 ∷ 50 ∷ 51 ∷ 52 ∷ 53 ∷ 54 ∷ 55 ∷ 56 ∷ []

-- `parity_enc_a0[6]`
abbrev pub taps_6 : List ℕ
taps_6 = 57 ∷ 58 ∷ 59 ∷ 60 ∷ 61 ∷ 62 ∷ 63 ∷ []

-- `parity_enc_a0[7]`
abbrev pub taps_7 : List ℕ
taps_7 =
    0 ∷ 1 ∷ 2 ∷ 4 ∷ 5 ∷ 7 ∷ 10 ∷ 11 ∷ 12 ∷ 14 ∷ 17 ∷ 18 ∷ 21 ∷ 23 ∷ 24 ∷ 26 ∷ 27 ∷ 29 ∷ 32 ∷ 33 ∷ 36
    ∷ 38 ∷ 39 ∷ 41 ∷ 44 ∷ 46 ∷ 47 ∷ 50 ∷ 51 ∷ 53 ∷ 56 ∷ 57 ∷ 58 ∷ 60 ∷ 63 ∷ []

abbrev pub all_taps : List (List ℕ)
all_taps = taps_0 ∷ taps_1 ∷ taps_2 ∷ taps_3 ∷ taps_4 ∷ taps_5 ∷ taps_6 ∷ taps_7 ∷ []
