-- ===== src/Crc/Detection.antt =====
-- Which changes of the data the checksum detects.
use org_muhkuh_tools_flasher.Common.{
  ℕ, zero, suc, ◌+◌, ◌*◌, ◌<◌, ◌≤◌, ◌≡◌, ◌≢◌, refl, sym, ap, ap₂, ◌∙◌, Bool, true, false, not, ◌&&◌,
  List, [], ◌∷◌, ◌==◌, length, arith, All, Bool-cases, inl, inr, some-injective, if◌then◌else◌,
  subst,
}
use org_muhkuh_tools_flasher.Crc.{xor, calc_rarety}
use org_muhkuh_tools_flasher.Crc.Syndrome.{
  flip, flip_all, total, zip_xor, syndrome, checksum, length-flip, calc_rarety-checksum,
  checksum-flip, xor_comm₃,
}

-- The syndromes of the 64 bits, as numbers.
abbrev codes_of_bits : List ℕ
codes_of_bits =
    131 ∷ 133 ∷ 134 ∷ 7 ∷ 137 ∷ 138 ∷ 11 ∷ 140 ∷ 13 ∷ 14 ∷ 143 ∷ 145 ∷ 146 ∷ 19 ∷ 148 ∷ 21 ∷ 22
    ∷ 151 ∷ 152 ∷ 25 ∷ 26 ∷ 155 ∷ 28 ∷ 157 ∷ 158 ∷ 31 ∷ 161 ∷ 162 ∷ 35 ∷ 164 ∷ 37 ∷ 38 ∷ 167 ∷ 168
    ∷ 41 ∷ 42 ∷ 171 ∷ 44 ∷ 173 ∷ 174 ∷ 47 ∷ 176 ∷ 49 ∷ 50 ∷ 179 ∷ 52 ∷ 181 ∷ 182 ∷ 55 ∷ 56 ∷ 185
    ∷ 186 ∷ 59 ∷ 188 ∷ 61 ∷ 62 ∷ 191 ∷ 193 ∷ 194 ∷ 67 ∷ 196 ∷ 69 ∷ 70 ∷ 199 ∷ []

code_of : List Bool → ℕ
code_of [] = 0
code_of (b ∷ ys) = let rest = code_of ys in if b then 1 + 2 * rest else 2 * rest

index_of : ℕ → List ℕ → ℕ
index_of n [] = 0
index_of n (m ∷ ms) = let rest = index_of n ms in if n == m then 0 else suc rest

-- The bit that has a syndrome.
locate : List Bool → ℕ
unfolding code_of index_of
locate s = index_of (code_of s) codes_of_bits

holds_below : ℕ → (ℕ → Bool) → Bool
holds_below zero p = true
holds_below (suc n) p = p n && holds_below n p

holds_below-holds : (n : ℕ) (p : ℕ → Bool) → holds_below n p ≡ true → (i : ℕ) → i < n → p i ≡ true
unfolding holds_below
holds_below-holds zero p h i l = absurd (omega (arith, l))
holds_below-holds (suc n) p h i l = elim (Bool-cases (i == n)) [
  | inl e ↦ let same : n ≡ i = ground arith in subst (λ j. p j ≡ true) same (ground arith)
  | inr e ↦ holds_below-holds n p (ground arith) i (ground arith)
]

located : holds_below 64 (λ i. locate (syndrome i) == i) ≡ true
unfolding holds_below locate syndrome
located = refl

all_odd : holds_below 64 (λ i. total (syndrome i)) ≡ true
unfolding holds_below total syndrome
all_odd = refl

locate-syndrome : (i : ℕ) → i < 64 → locate (syndrome i) ≡ i
locate-syndrome i h =
    let found : (locate (syndrome i) == i) ≡ true =
      holds_below-holds 64 (λ j. locate (syndrome j) == j) located i h in
    ground arith

total-syndrome : (i : ℕ) → i < 64 → total (syndrome i) ≡ true
total-syndrome i h = holds_below-holds 64 (λ i. total (syndrome i)) all_odd i h

total-zip_xor :
    (xs ys : List Bool) → length xs ≡ length ys → total (zip_xor xs ys) ≡ xor (total xs) (total ys)
unfolding total zip_xor
total-zip_xor [] [] h = refl
total-zip_xor [] (b ∷ ys) h = absurd (omega (arith, h))
total-zip_xor (a ∷ xs) [] h = absurd (omega (arith, h))
total-zip_xor (a ∷ xs) (b ∷ ys) h =
    rw (total-zip_xor xs ys (omega (arith, h))) (xor_comm₃ a b (total xs) (total ys))

xor_cancel : (a b c : Bool) → xor a (xor b c) ≡ c → a ≡ b
unfolding xor
xor_cancel a b c h = ground arith

head_of : List Bool → Bool
head_of [] = false
head_of (b ∷ ys) = b

tail_of : List Bool → List Bool
tail_of [] = []
tail_of (b ∷ ys) = ys

zip_xor_cancel :
    (xs ys zs : List Bool)
    → length xs ≡ length zs
    → length ys ≡ length zs
    → zip_xor xs (zip_xor ys zs) ≡ zs
    → xs ≡ ys
unfolding zip_xor head_of tail_of
zip_xor_cancel [] [] [] k l h = refl
zip_xor_cancel [] (b ∷ ys) [] k l h = absurd (omega (arith, l))
zip_xor_cancel (a ∷ xs) ys [] k l h = absurd (omega (arith, k))
zip_xor_cancel [] ys (c ∷ zs) k l h = absurd (omega (arith, k))
zip_xor_cancel (a ∷ xs) [] (c ∷ zs) k l h = absurd (omega (arith, l))
zip_xor_cancel (a ∷ xs) (b ∷ ys) (c ∷ zs) k l h =
    ap₂ ◌∷◌ (xor_cancel a b c (ap head_of h))
      (zip_xor_cancel xs ys zs (omega (arith, k)) (omega (arith, l)) (ap tail_of h))

total-flip :
    (din : List Bool) (i : ℕ)
    → 64 ≤ length din
    → i < 64
    → total (checksum (flip i din)) ≡ not (total (checksum din))
unfolding checksum syndrome xor
total-flip din i h l =
    ap total (checksum-flip din i (omega (arith, h, l)))
    ∙ total-zip_xor (syndrome i) (checksum din) refl
    ∙ rw (total-syndrome i l) refl

-- No position occurs twice.
abbrev pub Distinct : List ℕ → Type 0
Distinct [] = Unit
Distinct (i ∷ is) = All (λ j. i ≢ j) is × Distinct is

checksum-flips :
    (din : List Bool) (is : List ℕ)
    → 64 ≤ length din
    → All (λ i. i < 64) is
    → Distinct is
    → 1 ≤ length is
    → length is ≤ 3
    → checksum (flip_all is din) ≢ checksum din
unfolding checksum syndrome
checksum-flips din [] h a d p q e = absurd (omega (arith, p))
checksum-flips din (i ∷ []) h (a, _) d p q e = ground (arith, total-flip din i h a, ap total e)
checksum-flips din (i ∷ (j ∷ [])) h (a, (b, _)) ((d, _), _) p q e =
    let zipped : zip_xor (syndrome i) (zip_xor (syndrome j) (checksum din)) ≡ checksum din =
      ap (zip_xor (syndrome i)) (sym (checksum-flip din j (omega (arith, h, b))))
      ∙ sym (checksum-flip (flip j din) i (omega (arith, h, a, length-flip j din)))
      ∙ e in
    let same : syndrome i ≡ syndrome j =
      zip_xor_cancel (syndrome i) (syndrome j) (checksum din) refl refl zipped in
    d (sym (locate-syndrome i a) ∙ ap locate same ∙ locate-syndrome j b)
checksum-flips din (i ∷ (j ∷ (k ∷ []))) h (a, (b, (c, _))) d p q e =
    let once = total-flip din k h c in
    let twice = total-flip (flip k din) j (omega (arith, h, length-flip k din)) b in
    let thrice =
      total-flip (flip j (flip k din)) i
        (omega (arith, h, length-flip k din, length-flip j (flip k din))) a in
    ground (arith, once, twice, thrice, ap total e)
checksum-flips din (i ∷ (j ∷ (k ∷ (l ∷ is)))) h a d p q e = absurd (omega (arith, q))

length-flip_all : (is : List ℕ) (din : List Bool) → length (flip_all is din) ≡ length din
length-flip_all [] din = refl
length-flip_all (i ∷ is) din = length-flip i (flip_all is din) ∙ length-flip_all is din

-- In data of 64 bits at least, a change of one, two or three different bits of the first 64
-- changes the checksum.
pub calc_rarety-flip_all :
    (din : List Bool) (is : List ℕ)
    → 64 ≤ length din
    → All (λ i. i < 64) is
    → Distinct is
    → 1 ≤ length is
    → length is ≤ 3
    → calc_rarety (flip_all is din) ≢ calc_rarety din
calc_rarety-flip_all din is h a d p q e = checksum-flips din is h a d p q (
    some-injective (checksum (flip_all is din)) (checksum din) (
      sym (calc_rarety-checksum (flip_all is din) (omega (arith, h, length-flip_all is din)))
      ∙ e
      ∙ calc_rarety-checksum din h))
