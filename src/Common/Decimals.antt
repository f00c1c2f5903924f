-- ===== src/Common/Decimals.antt =====
-- Decimal numbers as `%d` and `%02d` print them, and how they are read back.
use org_muhkuh_tools_flasher.Common.{
  ℕ, zero, suc, ◌+◌, ◌-◌, ◌*◌, ◌/◌, ◌%◌, ◌≤◌, ◌≡◌, refl, sym, ◌∙◌, ap, true, [], ◌∷◌, ◌++◌, All,
  if◌then◌else◌, ltb, arith, Bool-cases, inl, inr, some_unique,
}
use org_muhkuh_tools_flasher.Common.Words.{Word, is_digit}
use org_muhkuh_tools_flasher.Common.Runs.{some_of, Run, Stops, some_of-append}

-- The fuel is the number itself: a number has no more digits than its value.
unfoldable pub digits_of : ℕ → ℕ → Word → Word
digits_of zero n w = (b'0' + n) ∷ w
digits_of (suc fuel) n w =
    let rest = digits_of fuel (n / 10) ((b'0' + n % 10) ∷ w) in
    if ltb n 10 then (b'0' + n) ∷ w else rest

-- `"%d" % n`
unfoldable pub decimal : ℕ → Word
unfolding digits_of
decimal n = digits_of n n []

-- `"%02d" % n`
unfoldable pub two_digits : ℕ → Word
unfolding decimal
two_digits n = if ltb n 10 then b'0' ∷ decimal n else decimal n

-- The number that digits stand for, after those read so far.
abbrev pub read : ℕ → Word → ℕ
read n [] = n
read n (c ∷ w) = read (10 * n + (c - b'0')) w

read-digits_of : (fuel n : ℕ) (w : Word) → n ≤ fuel → read 0 (digits_of fuel n w) ≡ read n w
unfolding digits_of
read-digits_of zero n w h = ap (λ m. read m w) (omega arith)
read-digits_of (suc fuel) n w h = elim (Bool-cases (ltb n 10)) [
  | inl e ↦ rw e (ap (λ m. read m w) (omega arith))
  | inr e ↦ rw e (
      read-digits_of fuel (n / 10) ((b'0' + n % 10) ∷ w) (ground arith)
      ∙ ap (λ m. read m w) (omega arith))
]

digits_of-digits :
    (fuel n : ℕ) (w : Word)
    → n ≤ fuel
    → All (λ c. is_digit c ≡ true) w
    → Run is_digit (digits_of fuel n w)
unfolding digits_of
digits_of-digits zero n w h a = (ground arith, a)
digits_of-digits (suc fuel) n w h a = elim (Bool-cases (ltb n 10)) [
  | inl e ↦ rw e (ground arith, a)
  | inr e ↦
      rw e (digits_of-digits fuel (n / 10) ((b'0' + n % 10) ∷ w) (ground arith) (ground arith, a))
]

Run-cons : (c : ℕ) (w : Word) → is_digit c ≡ true → Run is_digit w → Run is_digit (c ∷ w)
Run-cons c [] d r = elim r [ ]
Run-cons c (e ∷ w) d (f, a) = (d, (f, a))

pub read-two_digits : (n : ℕ) → read 0 (two_digits n) ≡ n
unfolding two_digits decimal
read-two_digits n = elim (Bool-cases (ltb n 10)) [
  | inl e ↦ rw e (read-digits_of n n [] (omega arith))
  | inr e ↦ rw e (read-digits_of n n [] (omega arith))
]

pub two_digits-digits : (n : ℕ) → Run is_digit (two_digits n)
unfolding two_digits decimal
two_digits-digits n = elim (Bool-cases (ltb n 10)) [
  | inl e ↦ rw e (Run-cons b'0' (decimal n) refl (digits_of-digits n n [] (omega arith) tt))
  | inr e ↦ rw e (digits_of-digits n n [] (omega arith) tt)
]

-- Numbers that are followed by no digit are the same if the texts are, and so is what follows.
pub two_digits-injective :
    (m n : ℕ) (s t : Word)
    → Stops is_digit s
    → Stops is_digit t
    → two_digits m ++ s ≡ two_digits n ++ t
    → (m ≡ n) × (s ≡ t)
two_digits-injective m n s t h k e =
    let same : Path (Word × Word) (two_digits m, s) (two_digits n, t) =
      some_unique (some_of-append is_digit (two_digits m) s (two_digits-digits m) h) (
        ap (some_of is_digit) e
        ∙ some_of-append is_digit (two_digits n) t (two_digits-digits n) k) in
    (
      sym (read-two_digits m) ∙ ap (λ (q : Word × Word). read 0 q.0) same ∙ read-two_digits n,
      ap (λ (q : Word × Word). q.1) same,
    )
