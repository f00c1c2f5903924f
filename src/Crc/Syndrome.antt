-- ===== src/Crc/Syndrome.antt =====
-- The change of the checksum when one bit of the data changes.
use org_muhkuh_tools_flasher.Common.{
  ℕ, zero, suc, ◌<◌, ◌≤◌, ◌≡◌, refl, ap, Bool, true, false, not, some, List, [], ◌∷◌, ◌==◌, ltb,
  length, map, arith, ◌&&◌,
}
use org_muhkuh_tools_flasher.Crc.{xor, get, parity, calc_rarety}
use org_muhkuh_tools_flasher.Crc.Taps.{
  taps_0, taps_1, taps_2, taps_3, taps_4, taps_5, taps_6, taps_7, all_taps,
}

-- The data with one bit changed.
abbrev pub flip : ℕ → List Bool → List Bool
flip i [] = []
flip zero (b ∷ ys) = not b ∷ ys
flip (suc i) (b ∷ ys) = b ∷ flip i ys

abbrev pub flip_all : List ℕ → List Bool → List Bool
flip_all [] ys = ys
flip_all (i ∷ is) ys = flip i (flip_all is ys)

bit : List Bool → ℕ → Bool
bit [] i = false
bit (b ∷ ys) zero = b
bit (b ∷ ys) (suc i) = bit ys i

sum_bits : List Bool → List ℕ → Bool
unfolding xor bit
sum_bits din [] = false
sum_bits din (i ∷ is) = xor (bit din i) (sum_bits din is)

-- The sum of all bits of a checksum.
unfoldable pub total : List Bool → Bool
unfolding xor
total [] = false
total (b ∷ ys) = xor b (total ys)

unfoldable pub zip_xor : List Bool → List Bool → List Bool
unfolding xor
zip_xor (a ∷ xs) (b ∷ ys) = xor a b ∷ zip_xor xs ys
zip_xor _ _ = []

-- Whether a bit of the data goes into a bit of the checksum.
is_tapped : ℕ → List ℕ → Bool
unfolding xor
is_tapped i [] = false
is_tapped i (t ∷ ts) = xor (i == t) (is_tapped i ts)

unfoldable pub syndrome : ℕ → List Bool
unfolding is_tapped
syndrome i = map (is_tapped i) all_taps

unfoldable pub checksum : List Bool → List Bool
unfolding sum_bits
checksum din = map (sum_bits din) all_taps

pub length-flip : (i : ℕ) (ys : List Bool) → length (flip i ys) ≡ length ys
length-flip i [] = refl
length-flip zero (b ∷ ys) = refl
length-flip (suc i) (b ∷ ys) = ap suc (length-flip i ys)

get-bit : (din : List Bool) (i : ℕ) → i < length din → get din i ≡ some (bit din i)
unfolding get bit
get-bit [] i h = absurd (omega (arith, h))
get-bit (b ∷ ys) zero h = refl
get-bit (b ∷ ys) (suc i) h = get-bit ys i (omega (arith, h))

-- The largest index of the taps is below a bound.
abbrev all_below : ℕ → List ℕ → Bool
all_below n [] = true
all_below n (i ∷ is) = ltb i n && all_below n is

parity-sum_bits :
    (din : List Bool) (is : List ℕ)
    → 64 ≤ length din
    → all_below 64 is ≡ true
    → parity din is ≡ some (sum_bits din is)
unfolding parity sum_bits
parity-sum_bits din [] h a = refl
parity-sum_bits din (i ∷ is) h a =
    rw (get-bit din i (ground arith), parity-sum_bits din is h (ground arith)) refl

pub calc_rarety-checksum :
    (din : List Bool) → 64 ≤ length din → calc_rarety din ≡ some (checksum din)
unfolding calc_rarety checksum
calc_rarety-checksum din h =
    rw
      (
        parity-sum_bits din taps_0 h refl,
        parity-sum_bits din taps_1 h refl,
        parity-sum_bits din taps_2 h refl,
        parity-sum_bits din taps_3 h refl,
        parity-sum_bits din taps_4 h refl,
        parity-sum_bits din taps_5 h refl,
        parity-sum_bits din taps_6 h refl,
        parity-sum_bits din taps_7 h refl,
      )
      refl

pub xor_comm₃ : (a b c d : Bool) → xor (xor a b) (xor c d) ≡ xor (xor a c) (xor b d)
unfolding xor
xor_comm₃ a b c d = ground arith

bit-flip :
    (din : List Bool) (i j : ℕ) → i < length din → bit (flip i din) j ≡ xor (i == j) (bit din j)
unfolding bit xor
bit-flip [] i j h = absurd (omega (arith, h))
bit-flip (b ∷ ys) zero zero h = refl
bit-flip (b ∷ ys) zero (suc j) h = ground arith
bit-flip (b ∷ ys) (suc i) zero h = ground arith
bit-flip (b ∷ ys) (suc i) (suc j) h = ground (arith, bit-flip ys i j (omega (arith, h)))

sum_bits-flip :
    (din : List Bool) (i : ℕ) (ts : List ℕ)
    → i < length din
    → sum_bits (flip i din) ts ≡ xor (is_tapped i ts) (sum_bits din ts)
unfolding sum_bits is_tapped
sum_bits-flip din i [] h = refl
sum_bits-flip din i (t ∷ ts) h =
    rw (bit-flip din i t h, sum_bits-flip din i ts h) (xor_comm₃ (i == t) (bit din t) _ _)

pub checksum-flip :
    (din : List Bool) (i : ℕ)
    → i < length din
    → checksum (flip i din) ≡ zip_xor (syndrome i) (checksum din)
unfolding checksum syndrome zip_xor
checksum-flip din i h = go all_taps
  where
    go :
        (tss : List (List ℕ))
        → map (sum_bits (flip i din)) tss ≡ zip_xor (map (is_tapped i) tss) (map (sum_bits din) tss)
    go [] = refl
    go (ts ∷ tss) = rw (sum_bits-flip din i ts h, go tss) refl
