-- ===== src/TestCases/Hexadecimal.antt =====
-- `"%x" % n`
use org_muhkuh_tools_flasher.Common.{ℕ, zero, suc, ◌+◌, ◌/◌, ◌%◌, [], ◌∷◌, ltb, if◌then◌else◌}
use org_muhkuh_tools_flasher.Common.Words.{Word}

abbrev digit : ℕ → ℕ
digit n = if ltb n 10 then b'0' + n else 87 + n

-- The fuel is the number itself.
hex_digits : ℕ → ℕ → Word → Word
hex_digits zero n w = digit n ∷ w
hex_digits (suc fuel) n w =
    let rest = hex_digits fuel (n / 16) (digit (n % 16) ∷ w) in
    if ltb n 16 then digit n ∷ w else rest

unfoldable pub hexadecimal : ℕ → Word
unfolding hex_digits
hexadecimal n = hex_digits n n []
