-- ===== src/Progress/Valid.antt =====
-- What a valid progress bar is, and the output of each stage of a round.
use org_muhkuh_tools_flasher.Common.{
  ℕ, suc, ◌+◌, ◌-◌, ◌*◌, ◌/◌, ◌≤◌, ◌<◌, ◌≡◌, List, [], ◌∷◌, ◌++◌, leb, if◌then◌else◌, arith,
}
use org_muhkuh_tools_flasher.Progress.{
  Progress, Output, size_line, percent, blanks, dots, newline, flush, shown, print_header,
  print_dots, end_line,
}

-- The dots, and the ends of full lines, that an output holds.
abbrev pub dots_of : List Output → ℕ
dots_of [] = 0
dots_of (dots n ∷ out) = n + dots_of out
dots_of (_ ∷ out) = dots_of out

pub dots_of-append : (a b : List Output) → dots_of (a ++ b) ≡ dots_of a + dots_of b
dots_of-append [] b = omega arith
dots_of-append (dots n ∷ a) b = omega (arith, dots_of-append a b)
dots_of-append (size_line n ∷ a) b = dots_of-append a b
dots_of-append (percent n ∷ a) b = dots_of-append a b
dots_of-append (blanks ∷ a) b = dots_of-append a b
dots_of-append (newline ∷ a) b = dots_of-append a b
dots_of-append (flush ∷ a) b = dots_of-append a b

abbrev pub newlines_of : List Output → ℕ
newlines_of [] = 0
newlines_of (newline ∷ out) = suc (newlines_of out)
newlines_of (_ ∷ out) = newlines_of out

pub newlines_of-append : (a b : List Output) → newlines_of (a ++ b) ≡ newlines_of a + newlines_of b
newlines_of-append [] b = omega arith
newlines_of-append (newline ∷ a) b = omega (arith, newlines_of-append a b)
newlines_of-append (dots n ∷ a) b = newlines_of-append a b
newlines_of-append (size_line n ∷ a) b = newlines_of-append a b
newlines_of-append (percent n ∷ a) b = newlines_of-append a b
newlines_of-append (blanks ∷ a) b = newlines_of-append a b
newlines_of-append (flush ∷ a) b = newlines_of-append a b

-- The position lies in the line, the line shows its dots, and the lines above it are full.
pub record IsValid (p : Progress) : Type 0 where
  pub positive : 0 < p.dot
  pub started : p.line_start ≤ p.current
  pub within : p.current < p.line_start + 50 * p.dot
  pub in_line : shown p.printed ≡ (p.current - p.line_start) / p.dot
  pub lines_full : p.line_start ≡ newlines_of p.out * (50 * p.dot)
  pub in_all : dots_of p.out ≡ 50 * newlines_of p.out + shown p.printed

pub div_mono : (a b d : ℕ) → a ≤ b → a / d ≤ b / d
div_mono a b d h = grind arith

pub div-full : (n d : ℕ) → n ≤ 50 * d → 50 ≤ n / d → n ≡ 50 * d
div-full n d h k = grind arith

pub div-part : (n d : ℕ) → 0 < d → n / d < 50 → n < 50 * d
div-part n d h k = grind arith

pub suc_mul : (n k : ℕ) → suc n * k ≡ n * k + k
suc_mul n k = omega arith

pub div-le : (n d : ℕ) → 0 < d → n ≤ 50 * d → n / d ≤ 50
div-le n d h k = grind arith

pub zero_div : (d : ℕ) → 0 / d ≡ 0
zero_div d = omega arith

-- The output of each stage.
pub header_out :
    (p : Progress)
    → (newlines_of (print_header p).out ≡ newlines_of p.out)
      × (dots_of (print_header p).out ≡ dots_of p.out)
unfolding print_header
header_out p = grind (arith, newlines_of-append, dots_of-append)

pub dots_out :
    (stop : ℕ) (p : Progress)
    → (newlines_of (print_dots stop p).out ≡ newlines_of p.out)
      × (dots_of (print_dots stop p).out
          ≡ dots_of p.out + ((stop - p.line_start) / p.dot - shown p.printed))
unfolding print_dots
dots_out stop p = grind (arith, newlines_of-append, dots_of-append)

pub end_line_out :
    (clock : ℕ → ℕ) (p : Progress)
    → (newlines_of (end_line clock p).out
        ≡ (if leb 50 (shown p.printed) then newlines_of p.out + 1 else newlines_of p.out))
      × (dots_of (end_line clock p).out ≡ dots_of p.out)
unfolding end_line
end_line_out clock p = grind (arith, newlines_of-append, dots_of-append)
