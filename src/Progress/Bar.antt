-- ===== src/Progress/Bar.antt =====
-- The progress bar as a whole: what `__init__`, `update` and `finish` print.
use org_muhkuh_tools_flasher.Common.{
  ℕ, ◌+◌, ◌-◌, ◌*◌, ◌/◌, ◌≤◌, ◌<◌, ◌≡◌, refl, ◌||◌, some, List, [], ◌∷◌, ltb, ◌==◌, arith, ◌∙◌, sym,
}
use org_muhkuh_tools_flasher.Progress.{
  Progress, dot_size, flush_late, update, fresh, start, update_all,
}
use org_muhkuh_tools_flasher.Progress.Loop.{Advanced, print_loop-Advanced}
use org_muhkuh_tools_flasher.Progress.Valid.{
  dots_of, dots_of-append, newlines_of, newlines_of-append, IsValid,
}

-- A dot stands for 2048 bytes at least and for 1 MiB at most; a total below 1000 * (1 MiB + 1)
-- bytes fills at most 20 lines.
pub dot_size_bounds :
    (total : ℕ)
    → (2048 ≤ dot_size total)
      × (dot_size total ≤ 1024 * 1024)
      × (total < 1000 * (1024 * 1024 + 1) → total / (50 * dot_size total) ≤ 20)
unfolding dot_size
dot_size_bounds total = grind arith

module _ (clock : ℕ → ℕ) where
  flush_late-Advanced :
      (size : ℕ) (p q : Progress) → Advanced size p q → Advanced size p (flush_late clock q)
  unfolding flush_late
  flush_late-Advanced size p q a = grind (arith, a, dots_of-append, newlines_of-append)

  -- `update` ends, and takes all its data.
  pub update-Advanced :
      (size : ℕ) (p : Progress)
      → IsValid p
      → (q : Progress) × (update clock size p ≡ some q) × Advanced size p q
  unfolding update
  update-Advanced size p v =
      let go = ltb 0 size || p.current == 0 in
      let (q, runs, a) =
        print_loop-Advanced clock (size + 1) go size p v (λ _. omega arith) (λ e. ground arith) in
      (flush_late clock q, rw (runs, update), flush_late-Advanced size p q a)

  pub start-Advanced :
      (total : ℕ)
      → (q : Progress) × (start clock total ≡ some q)
        × IsValid q
        × (q.current ≡ 0)
        × (q.dot ≡ dot_size total)
        × (q.total ≡ total)
  unfolding start fresh
  start-Advanced total =
      let (q, runs, a) = update-Advanced 0 (fresh clock total) (record {
        positive = omega (arith, dot_size_bounds total);
        started = omega arith;
        within = omega (arith, dot_size_bounds total);
        in_line = omega arith;
        lines_full = omega arith;
        in_all = omega arith;
      }) in
      (q, runs, a.valid, a.moved, a.same_dot, a.same_total)

abbrev pub sum : List ℕ → ℕ
sum [] = 0
sum (n ∷ ns) = n + sum ns

module _ (clock : ℕ → ℕ) where
  -- From a valid bar, any updates end with a valid bar that has moved by the sum of the sizes,
  -- with the same size of a dot and the same total.
  pub update_all-Advanced :
      (sizes : List ℕ) (p : Progress)
      → IsValid p
      → (q : Progress) × (update_all clock sizes p ≡ some q) × Advanced (sum sizes) p q
  unfolding update_all
  update_all-Advanced [] p v =
      (p, refl, record { valid = v; moved = omega arith; same_dot = refl; same_total = refl })
  update_all-Advanced (size ∷ sizes) p v =
      let (q, runs, a) = update-Advanced clock size p v in
      let (r, runs', b) = update_all-Advanced sizes q a.valid in
      (
        r,
        rw (runs, update_all) runs',
        record {
          valid = b.valid;
          moved = omega (arith, a.moved, b.moved);
          same_dot = b.same_dot ∙ a.same_dot;
          same_total = b.same_total ∙ a.same_total;
        },
      )

div-eq : (n d q : ℕ) → q * d ≤ n → n < q * d + d → n / d ≡ q
div-eq n d q h k = grind arith

div-lines : (n d l : ℕ) → 0 < d → l * (50 * d) ≤ n → n / d ≡ 50 * l + (n - l * (50 * d)) / d
div-lines n d l h k = div-eq n d (50 * l + (n - l * (50 * d)) / d) (grind arith) (grind arith)

-- All the dots and all the ends of lines that a valid bar has printed, from its position alone.
module _ (p : Progress) (v : IsValid p) where
  pub IsValid-dots : dots_of p.out ≡ p.current / p.dot
  IsValid-dots = grind (
    arith,
    v.in_all,
    v.in_line,
    v.lines_full,
    v.started,
    v.positive,
    div-lines p.current p.dot (newlines_of p.out),
  )

  pub IsValid-newlines : newlines_of p.out ≡ p.current / (50 * p.dot)
  IsValid-newlines = sym (div-eq p.current (50 * p.dot) _ (omega (arith, v)) (omega (arith, v)))
