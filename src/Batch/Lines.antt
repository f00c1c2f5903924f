-- ===== src/Batch/Lines.antt =====
-- The loop of the summary: the lines it writes, and the failures it counts.
use org_muhkuh_tools_flasher.Common.{
  ℕ, zero, suc, ◌+◌, ◌≡◌, refl, sym, ◌∙◌, ap, ap₂, Bool, true, false, Option, some, List, [], ◌∷◌,
  ◌++◌, All, arith, ltb, if◌then◌else◌, Bool-cases, ◌⊎◌, inl, inr, false≢true, none-ne-some,
}
use org_muhkuh_tools_flasher.Common.Io.{◌>>◌, from_option, bind_some, bind_step, result_is}
use org_muhkuh_tools_flasher.Common.Words.{Word}
use org_muhkuh_tools_flasher.Batch.{
  ReturnValue, unset, exit_code, signal, Entry, SummaryFiles, is_failed, is_ascii, write_line,
  write_entries,
}

-- A command without a return value, or with 0.
abbrev pub Passed : ReturnValue → Type 0
Passed r = (r ≡ unset) ⊎ (r ≡ exit_code 0)

-- A command with another code, or that a signal ended.
abbrev pub Failed : ReturnValue → Type 0
Failed r = ((k : ℕ) × (r ≡ exit_code (suc k))) ⊎ ((k : ℕ) × (r ≡ signal k))

-- So many of the commands failed, and all others passed.
abbrev pub Failures : List ReturnValue → ℕ → Type 0
Failures [] n = n ≡ 0
Failures (r ∷ rs) n =
    (Passed r × Failures rs n) ⊎ ((m : ℕ) × Failed r × (n ≡ suc m) × Failures rs m)

abbrev pub codes_of : List Entry → List ReturnValue
codes_of [] = []
codes_of (entry ∷ array) = entry.ret_val ∷ codes_of array

-- None failed: all passed.
pub Failures-All : (rs : List ReturnValue) (n : ℕ) → Failures rs n → n ≡ 0 → All Passed rs
Failures-All [] n f z = tt
Failures-All (r ∷ rs) n (inl (p, f)) z = (p, Failures-All rs n f z)
Failures-All (r ∷ rs) n (inr (m, g, s, f)) z = absurd (omega (arith, s, z))

judged : (r : ReturnValue) → (Passed r × (is_failed r ≡ false)) ⊎ (Failed r × (is_failed r ≡ true))
judged unset = inl (inl refl, refl)
judged (exit_code zero) = inl (inr refl, refl)
judged (exit_code (suc n)) = inr (inl (n, refl), refl)
judged (signal n) = inr (inr (n, refl), refl)

Passed-is_failed : (r : ReturnValue) → Passed r → is_failed r ≡ false
Passed-is_failed r (inl e) = ap is_failed e
Passed-is_failed r (inr e) = ap is_failed e

Failed-is_failed : (r : ReturnValue) → Failed r → is_failed r ≡ true
Failed-is_failed r (inl (k, e)) = ap is_failed e
Failed-is_failed r (inr (k, e)) = ap is_failed e

-- Every character is one of ASCII.
abbrev pub IsAscii : Word → Type 0
IsAscii w = All (λ c. ltb c 128 ≡ true) w

is_ascii-IsAscii : (w : Word) → is_ascii w ≡ true → IsAscii w
is_ascii-IsAscii [] e = tt
is_ascii-IsAscii (c ∷ w) e = elim (Bool-cases (ltb c 128)) [
  | inl t ↦ (t, is_ascii-IsAscii w (sym (rw t refl) ∙ e))
  | inr f ↦ absurd (false≢true (sym (rw f refl) ∙ e))
]

IsAscii-is_ascii : (w : Word) → IsAscii w → is_ascii w ≡ true
IsAscii-is_ascii [] a = refl
IsAscii-is_ascii (c ∷ w) (t, a) = rw t (IsAscii-is_ascii w a)

-- The lines of the entries, which all can be printed.
abbrev pub AreLines : List Entry → List Word → Type 0
AreLines [] [] = Unit
AreLines [] (l ∷ ls) = ⊥
AreLines (entry ∷ array) [] = ⊥
AreLines (entry ∷ array) (l ∷ ls) = (entry.line ≡ some l) × AreLines array ls

module _ {W H : Type 0} (files : SummaryFiles W H) where
  -- Texts of ASCII are written to the file, one after the other, each with a line end.
  abbrev pub Written : H → List Word → W → W → Type 0
  Written handle [] w v = w ≡ v
  Written handle (l ∷ ls) w v =
      (u : W) × IsAscii l
      × (files.write handle (l ++ b'\n' ∷ []) w ≡ (some tt, u))
      × Written handle ls u v

  pub write_line-Written :
      (handle : H) (l : Word) (w v : W)
      → write_line files handle l w ≡ (some tt, v)
      → IsAscii l × (files.write handle (l ++ b'\n' ∷ []) w ≡ (some tt, v))
  unfolding write_line
  write_line-Written handle l w v e = elim (Bool-cases (is_ascii l)) [
    | inl a ↦ (is_ascii-IsAscii l a, sym (rw a refl) ∙ e)
    | inr a ↦ absurd (none-ne-some tt (sym (rw a refl) ∙ ap (λ (q : Option Unit × W). q.0) e))
  ]

  pub Written-write_line :
      (handle : H) (l : Word) (w v : W)
      → IsAscii l
      → files.write handle (l ++ b'\n' ∷ []) w ≡ (some tt, v)
      → write_line files handle l w ≡ (some tt, v)
  unfolding write_line
  Written-write_line handle l w v a e = rw (IsAscii-is_ascii l a) e

  from_option-some :
      {A : Type 0} (o : Option A) (a : A) (w v : W)
      → Path (Option A × W) (from_option o w) (some a, v)
      → (o ≡ some a) × (w ≡ v)
  from_option-some {A = A} o a w v e =
      (ap (λ (q : Option A × W). q.0) e, ap (λ (q : Option A × W). q.1) e)

  pub write_entries-Written :
      (handle : H) (array : List Entry) (count n : ℕ) (w v : W)
      → write_entries files handle array count w ≡ (some n, v)
      → (lines : List Word) × (m : ℕ) × AreLines array lines
        × Written handle lines w v
        × (n ≡ count + m)
        × Failures (codes_of array) m
  unfolding write_entries
  write_entries-Written handle [] count n w v e =
      let (a, b) = result_is e in ([], 0, tt, b, omega (arith, a), refl)
  write_entries-Written handle (entry ∷ array) count n w v e =
      let rest = λ (k : ℕ).
        write_entries files handle array (if is_failed entry.ret_val then suc k else k) in
      let (l, w1, e1, f1) =
        bind_some (from_option entry.line) (λ l. write_line files handle l >> rest count) e in
      let (_, w2, e2, f2) = bind_some (write_line files handle l) (λ _. rest count) f1 in
      let (line, same) = from_option-some entry.line l w w1 e1 in
      let (ascii, wrote) = write_line-Written handle l w1 w2 e2 in
      let (lines, m, are, written, counted, fails) =
        write_entries-Written handle array (if is_failed entry.ret_val then suc count else count) n
          w2 v f2 in
      let (k, total, all) = counted_on entry.ret_val (codes_of array) count n m counted fails in
      (
        l ∷ lines,
        k,
        (line, are),
        (w2, ascii, ap (files.write handle (l ++ b'\n' ∷ [])) same ∙ wrote, written),
        total,
        all,
      )
    where
      counted_on :
          (r : ReturnValue) (rs : List ReturnValue) (count n m : ℕ)
          → n ≡ (if is_failed r then suc count else count) + m
          → Failures rs m
          → (k : ℕ) × (n ≡ count + k) × Failures (r ∷ rs) k
      counted_on r rs count n m c f = elim (judged r) [
        | inl (p, b) ↦ (m, c ∙ rw b refl, inl (p, f))
        | inr (g, b) ↦
            let added : n ≡ suc count + m = c ∙ rw b refl in
            (suc m, omega (arith, added), inr (m, g, refl, f))
      ]

  pub Written-write_entries :
      (handle : H) (array : List Entry) (lines : List Word) (count m : ℕ) (w v : W)
      → AreLines array lines
      → Written handle lines w v
      → Failures (codes_of array) m
      → write_entries files handle array count w ≡ (some (count + m), v)
  unfolding write_entries
  Written-write_entries handle [] [] count m w v are same none_failed =
      ap₂ (λ (k : ℕ) (u : W). (some k, u)) (omega (arith, none_failed)) same
  Written-write_entries handle [] (l ∷ ls) count m w v are written fails = absurd are
  Written-write_entries handle (entry ∷ array) [] count m w v are written fails = absurd are
  Written-write_entries handle (entry ∷ array) (l ∷ ls) count m w v (line, are)
        (u, ascii, wrote, written) fails =
      let rest = λ (k : ℕ).
        write_entries files handle array (if is_failed entry.ret_val then suc k else k) in
      bind_step (from_option entry.line) (λ l. write_line files handle l >> rest count) w
        (ap (λ (o : Option Word). (o, w)) line)
      ∙ bind_step (write_line files handle l) (λ _. rest count) w
          (Written-write_line handle l w u ascii wrote)
      ∙ elim fails [
        | inl (p, f) ↦
            ap (λ (b : Bool). write_entries files handle array (if b then suc count else count) u)
              (Passed-is_failed entry.ret_val p)
            ∙ Written-write_entries handle array ls count m u v are written f
        | inr (k, g, s, f) ↦
            ap (λ (b : Bool). write_entries files handle array (if b then suc count else count) u)
              (Failed-is_failed entry.ret_val g)
            ∙ Written-write_entries handle array ls (suc count) k u v are written f
            ∙ ap (λ (i : ℕ). (some i, v)) (omega (arith, s))
      ]
