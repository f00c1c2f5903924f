-- ===== src/Progress/Tests.antt =====
-- Runs of the progress bar, with a clock that stands still.
use org_muhkuh_tools_flasher.Common.{ℕ, ◌+◌, ◌*◌, ◌/◌, ◌≤◌, ◌<◌, ◌≡◌, refl, some, [], ◌∷◌, arith}
use org_muhkuh_tools_flasher.Progress.{
  Progress, size_line, percent, dots, newline, dot_size, fresh, update, update_all, print_line,
}
use org_muhkuh_tools_flasher.Progress.Loop.{Advanced}
use org_muhkuh_tools_flasher.Progress.Valid.{IsValid}
use org_muhkuh_tools_flasher.Progress.Bar.{sum, dot_size_bounds, update_all-Advanced}

abbrev still : ℕ → ℕ
still n = 0

-- A bar in the first line, at 3000 bytes of 150000.
abbrev bar : Progress
bar = record {
  dot = 2048;
  total = 150000;
  printed = some 1;
  line_start = 0;
  current = 3000;
  last_flush = 0;
  reads = 1;
  out = dots 1 ∷ [];
}

bar-IsValid : IsValid bar
bar-IsValid = record {
  positive = omega arith;
  started = omega arith;
  within = omega arith;
  in_line = omega arith;
  lines_full = omega arith;
  in_all = omega arith;
}

-- 150000 bytes in two chunks: 50 dots fill the first line, and 23 stand in the second.
update_run :
    update_all still (100000 ∷ 50000 ∷ []) (fresh still 150000)
    ≡ some (record {
      dot = 2048;
      total = 150000;
      printed = some 23;
      line_start = 102400;
      current = 150000;
      last_flush = 0;
      reads = 4;
      out = size_line 150000 ∷ percent 0 ∷ dots 48 ∷ dots 2 ∷ newline ∷ percent 68 ∷ dots 23 ∷ [];
    })
unfolding update_all update fresh print_line
update_run = refl

dot_size_bounds_example :
    (2048 ≤ dot_size 3000000)
    × (dot_size 3000000 ≤ 1024 * 1024)
    × (3000000 < 1000 * (1024 * 1024 + 1) → 3000000 / (50 * dot_size 3000000) ≤ 20)
dot_size_bounds_example = dot_size_bounds 3000000

update_all-Advanced_example :
    (q : Progress) × (update_all still (2048 ∷ 700 ∷ []) bar ≡ some q)
    × Advanced (sum (2048 ∷ 700 ∷ [])) bar q
update_all-Advanced_example = update_all-Advanced still (2048 ∷ 700 ∷ []) bar bar-IsValid
