-- ===== src/Crc.antt =====
-- regression/common/simpelTools/src/find_correct_crc.py: the checksum of a flash word of 64 bits, and
-- the comparisons of two checksums.
pub mod Taps
pub mod Syndrome
pub mod Detection
pub mod Rises
mod Tests
use org_muhkuh_tools_flasher.Common.{
  ℕ, zero, suc, ◌+◌, ◌*◌, ◌/◌, ◌%◌, Bool, true, false, not, ◌&&◌, Option, none, some, List, [], ◌∷◌,
  ◌==◌, ltb, length, if◌then◌else◌, ◌>>=◌,
}
use org_muhkuh_tools_flasher.Crc.Taps.{
  taps_0, taps_1, taps_2, taps_3, taps_4, taps_5, taps_6, taps_7,
}

-- `^` on bits.
unfoldable pub xor : Bool → Bool → Bool
xor true b = not b
xor false b = b

-- `DIN0[i]`, where an index out of range raises.
unfoldable pub get : List Bool → ℕ → Option Bool
get [] i = none
get (b ∷ ys) zero = some b
get (b ∷ ys) (suc i) = get ys i

unfoldable pub parity : List Bool → List ℕ → Option Bool
unfolding get xor
parity din [] = some false
parity din (i ∷ is) = do b ← get din i; c ← parity din is; some (xor b c)

unfoldable pub calc_rarety : List Bool → Option (List Bool)
unfolding parity
calc_rarety din = do
  p0 ← parity din taps_0
  p1 ← parity din taps_1
  p2 ← parity din taps_2
  p3 ← parity din taps_3
  p4 ← parity din taps_4
  p5 ← parity din taps_5
  p6 ← parity din taps_6
  p7 ← parity din taps_7
  some (p0 ∷ p1 ∷ p2 ∷ p3 ∷ p4 ∷ p5 ∷ p6 ∷ p7 ∷ [])

-- The binary digits of a number from the lowest one, with fuel: the number itself is enough.
unfoldable pub digits : ℕ → ℕ → List Bool
digits zero n = []
digits (suc fuel) n = let rest = digits fuel (n / 2) in if n == 0 then [] else (n % 2 == 1) ∷ rest

-- `bin_array` for a positive width: the digits from the lowest one, filled up with zeros.
unfoldable pub bin_array : ℕ → ℕ → List Bool
unfolding digits
bin_array n zero = digits n n
bin_array n (suc m) = (n % 2 == 1) ∷ bin_array (n / 2) m

unfoldable pub generate_crc_from_input_int : ℕ → Option (List Bool)
unfolding bin_array calc_rarety
generate_crc_from_input_int input = calc_rarety (bin_array input 64)

-- `compare_two_crcs_good`, 0 as `true` and -1 as `false`: no bit rises. The sizes are asserted.
rises_none : List Bool → List Bool → Bool
rises_none (a ∷ xs) (b ∷ ys) = not (not a && b) && rises_none xs ys
rises_none _ _ = true

unfoldable pub compare_two_crcs_good : List Bool → List Bool → Option Bool
unfolding rises_none
compare_two_crcs_good xs ys = if length xs == length ys then some (rises_none xs ys) else none

-- The loop of `compare_two_crcs`, with the count `qualety`.
unfoldable pub rises_often : ℕ → List Bool → List Bool → Bool
rises_often qualety (a ∷ xs) (b ∷ ys) =
    if not a && b
    then (if ltb 2 (qualety + 1) then true else rises_often (qualety + 1) xs ys)
    else rises_often qualety xs ys
rises_often qualety _ _ = false

unfoldable pub compare_two_crcs : List Bool → List Bool → Option Bool
unfolding rises_often
compare_two_crcs previous next =
    if length previous == length next then some (rises_often 0 previous next) else none
