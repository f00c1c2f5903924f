-- ===== src/Progress/Loop.antt =====
-- What one round of the loop in `update` keeps, and the end of the loop.
use org_muhkuh_tools_flasher.Common.{
  ℕ, zero, suc, ◌+◌, ◌-◌, ◌*◌, ◌/◌, ◌≤◌, ◌<◌, ◌≡◌, refl, Bool, true, false, some, ltb, arith, ◌∙◌,
}
use org_muhkuh_tools_flasher.Progress.{
  Progress, shown, print_header, line_end, print_dots, print_line, print_loop,
}
use org_muhkuh_tools_flasher.Progress.Valid.{
  dots_of, newlines_of, IsValid, div_mono, div-full, div-part, suc_mul, div-le, zero_div,
  header_out, dots_out, end_line_out,
}

module _ (clock : ℕ → ℕ) (size : ℕ) (p : Progress) (v : IsValid p) where
  print_line-current :
      p.current + size ≡ (print_line clock size p).1.current + (print_line clock size p).0
  unfolding print_line
  print_line-current = ground (arith, v)

  print_line-lt : 0 < size → (print_line clock size p).0 < size
  unfolding print_line
  print_line-lt h = ground (arith, v)

  print_line-le : (print_line clock size p).0 ≤ size
  unfolding print_line
  print_line-le = ground arith

  print_line-dot : (print_line clock size p).1.dot ≡ p.dot
  unfolding print_line
  print_line-dot = ground (arith, v)

  print_line-total : (print_line clock size p).1.total ≡ p.total
  unfolding print_line
  print_line-total = ground (arith, v)

  print_line-started : (print_line clock size p).1.line_start ≤ (print_line clock size p).1.current
  unfolding print_line
  print_line-started = ground (
    arith,
    v,
    div-full (line_end size p - p.line_start) p.dot,
    div_mono (p.current - p.line_start) (line_end size p - p.line_start) p.dot,
  )

  print_line-within :
      (print_line clock size p).1.current
      < (print_line clock size p).1.line_start + 50 * (print_line clock size p).1.dot
  unfolding print_line
  print_line-within = ground (
    arith,
    v,
    div-part (line_end size p - p.line_start) p.dot,
    div_mono (p.current - p.line_start) (line_end size p - p.line_start) p.dot,
  )

  print_line-in_line :
      shown (print_line clock size p).1.printed
      ≡ ((print_line clock size p).1.current - (print_line clock size p).1.line_start)
        / (print_line clock size p).1.dot
  unfolding print_line
  print_line-in_line = ground (
    arith,
    v,
    div-full (line_end size p - p.line_start) p.dot,
    div-part (line_end size p - p.line_start) p.dot,
    div_mono (p.current - p.line_start) (line_end size p - p.line_start) p.dot,
    zero_div p.dot,
  )

  after_dots : Progress
  unfolding print_line
  after_dots = print_dots (line_end size (print_header p)) (print_header p)

  print_line-lines_full :
      (print_line clock size p).1.line_start
      ≡ newlines_of (print_line clock size p).1.out * (50 * (print_line clock size p).1.dot)
  unfolding print_line after_dots
  print_line-lines_full = ground (
    arith,
    v,
    header_out p,
    dots_out (line_end size (print_header p)) (print_header p),
    end_line_out clock after_dots,
    suc_mul (newlines_of p.out) (50 * p.dot),
  )

  print_line-in_all :
      dots_of (print_line clock size p).1.out
      ≡ 50 * newlines_of (print_line clock size p).1.out + shown (print_line clock size p).1.printed
  unfolding print_line after_dots
  print_line-in_all = ground (
    arith,
    v,
    header_out p,
    dots_out (line_end size (print_header p)) (print_header p),
    end_line_out clock after_dots,
    div-le (line_end size p - p.line_start) p.dot,
    div_mono (p.current - p.line_start) (line_end size p - p.line_start) p.dot,
  )

  pub print_line-IsValid : IsValid (print_line clock size p).1
  print_line-IsValid = record {
    positive = rw print_line-dot v.positive;
    started = print_line-started;
    within = print_line-within;
    in_line = print_line-in_line;
    lines_full = print_line-lines_full;
    in_all = print_line-in_all;
  }

-- `q` is `p` with `size` more bytes.
pub record Advanced (size : ℕ) (p q : Progress) : Type 0 where
  pub valid : IsValid q
  pub moved : q.current ≡ p.current + size
  pub same_dot : q.dot ≡ p.dot
  pub same_total : q.total ≡ p.total

module _ (clock : ℕ → ℕ) where
  -- The loop ends, and takes all the data, if its fuel exceeds the data.
  pub print_loop-Advanced :
      (fuel : ℕ) (go : Bool) (size : ℕ) (p : Progress)
      → IsValid p
      → (go ≡ true → size < fuel)
      → (go ≡ false → size ≡ 0)
      → (q : Progress) × (print_loop clock fuel go size p ≡ some q) × Advanced size p q
  unfolding print_loop
  print_loop-Advanced zero false size p v h k = (
    p,
    refl,
    record { valid = v; moved = omega (arith, k refl); same_dot = refl; same_total = refl },
  )
  print_loop-Advanced (suc fuel) false size p v h k = (
    p,
    refl,
    record { valid = v; moved = omega (arith, k refl); same_dot = refl; same_total = refl },
  )
  print_loop-Advanced zero true size p v h k = absurd (omega (arith, h refl))
  print_loop-Advanced (suc fuel) true size p v h k =
      let step = print_line clock size p in
      let lt = print_line-lt clock size p v in
      let le = print_line-le clock size p v in
      let (q, runs, a) =
        print_loop-Advanced fuel (ltb 0 step.0) step.0 step.1 (print_line-IsValid clock size p v)
          (λ e. ground (arith, h refl, lt)) (λ e. ground arith) in
      (
        q,
        runs,
        record {
          valid = a.valid;
          moved = omega (arith, a.moved, print_line-current clock size p v);
          same_dot = a.same_dot ∙ print_line-dot clock size p v;
          same_total = a.same_total ∙ print_line-total clock size p v;
        },
      )
