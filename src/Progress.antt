-- ===== src/Progress.antt =====
-- jonchki/jonchkihere.py, class ProgressOutput: the progress bar of a download.
pub mod Loop
pub mod Valid
pub mod Bar
mod Tests
use org_muhkuh_tools_flasher.Common.{
  ℕ, zero, suc, ◌+◌, ◌-◌, ◌*◌, ◌/◌, Bool, true, false, ◌||◌, Option, none, some, List, [], ◌∷◌,
  ◌++◌, ltb, leb, ◌==◌, if◌then◌else◌,
}

-- What is written to stdout: the line heads ('% 3d%% ' and five blanks), '.' * n, and '\n'.
-- `flush` is `sys.stdout.flush()`, and `size_line` the line that `__init__` prints first.
pub data Output : Type 0 where
  size_line : ℕ → Output
  percent : ℕ → Output
  blanks : Output
  dots : ℕ → Output
  newline : Output
  flush : Output

abbrev pub dots_per_line : ℕ
dots_per_line = 50

-- `m_tTimeMinimumFlushIntervall`, in milliseconds.
abbrev pub minimum_flush_interval : ℕ
minimum_flush_interval = 1000

-- The attributes of the object. `printed` is `m_uiDotsPrintedInCurrentLine`, `None` at the start of
-- a line; `reads` counts the calls of `time.time()`; `out` is all that was written.
pub record Progress : Type 0 where
  pub dot : ℕ
  pub total : ℕ
  pub printed : Option ℕ
  pub line_start : ℕ
  pub current : ℕ
  pub last_flush : ℕ
  pub reads : ℕ
  pub out : List Output

-- The size of one dot: `sizTotal / 50 / 20`, held between 2048 and 1024 * 1024.
unfoldable pub dot_size : ℕ → ℕ
dot_size total =
    if total == 0
    then 2048
    else let size : ℕ = total / dots_per_line / 20 in
      if ltb (1024 * 1024) size then 1024 * 1024 else if ltb size 2048 then 2048 else size

-- The head of a line, written where no dot of the line is printed yet. The source divides floats
-- and truncates; below 2 ^ 45 bytes that is the division of the integers.
pub print_header : Progress → Progress
print_header p = elim p.printed [
  | none ↦ record p {
    printed = some 0;
    out = p.out ++ (if p.total == 0 then blanks else percent (100 * p.current / p.total)) ∷ [];
  }
  | some k ↦ p
]

abbrev pub shown : Option ℕ → ℕ
shown none = 0
shown (some k) = k

-- `sizLineEnd`: the end of the line, or of the data if that comes first.
line_end : ℕ → Progress → ℕ
line_end size p =
    let stop = p.line_start + dots_per_line * p.dot in
    let downloaded = p.current + size in if ltb downloaded stop then downloaded else stop

-- The new dots of the line, up to `stop`.
pub print_dots : ℕ → Progress → Progress
print_dots stop p =
    let count = (stop - p.line_start) / p.dot - shown p.printed in
    record p { printed = some (shown p.printed + count); out = p.out ++ dots count ∷ [] }

-- Time is read from a clock: its value at the n-th call, in milliseconds.
module _ (clock : ℕ → ℕ) where
  -- The end of a full line.
  pub end_line : Progress → Progress
  end_line p =
      if leb dots_per_line (shown p.printed)
      then record p {
        printed = none;
        line_start = p.line_start + dots_per_line * p.dot;
        last_flush = clock p.reads;
        reads = p.reads + 1;
        out = p.out ++ newline ∷ [];
      }
      else p

  -- One round of the loop in `update`: the data that is left, and the object.
  unfoldable pub print_line : ℕ → Progress → ℕ × Progress
  unfolding print_header line_end print_dots end_line
  print_line size p =
      let q = print_header p in
      let stop = line_end size q in
      let chunk = stop - q.current in
      let r = end_line (print_dots stop q) in
      (size - chunk, record r { current = q.current + chunk })

  -- The loop, with fuel; `none` means that the fuel ran out.
  pub print_loop : ℕ → Bool → ℕ → Progress → Option Progress
  print_loop fuel false size p = some p
  print_loop zero true size p = none
  print_loop (suc fuel) true size p =
      let (rest, q) = print_line size p in print_loop fuel (ltb 0 rest) rest q

  flush_late : Progress → Progress
  flush_late p =
      let elapsed = clock p.reads - p.last_flush in
      let q = record p { reads = p.reads + 1 } in
      if leb minimum_flush_interval elapsed then record q { out = q.out ++ flush ∷ [] } else q

  unfoldable pub update : ℕ → Progress → Option Progress
  unfolding print_loop flush_late
  update size p = elim (print_loop (size + 1) (ltb 0 size || p.current == 0) size p) [
    | none ↦ none
    | some q ↦ some (flush_late q)
  ]

  -- The attributes that `__init__` sets.
  unfoldable pub fresh : ℕ → Progress
  unfolding dot_size
  fresh total = record {
    dot = dot_size total;
    total = total;
    printed = none;
    line_start = 0;
    current = 0;
    last_flush = clock 0;
    reads = 1;
    out = size_line total ∷ [];
  }

  -- `__init__` ends with `self.update(0)`.
  unfoldable pub start : ℕ → Option Progress
  start total = update 0 (fresh total)

  -- The calls of `update` that a download makes, one for each chunk.
  unfoldable pub update_all : List ℕ → Progress → Option Progress
  update_all [] p = some p
  update_all (size ∷ sizes) p = elim (update size p) [ none ↦ none | some q ↦ update_all sizes q ]

unfoldable pub finish : Progress → Progress
finish p = elim p.printed [ none ↦ p | some k ↦ record p { out = p.out ++ newline ∷ [] } ]
