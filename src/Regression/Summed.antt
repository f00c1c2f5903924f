-- ===== src/Regression/Summed.antt =====
-- The summary and the exit code are 0 exactly if nothing failed.
use org_muhkuh_tools_flasher.Common.{
  ℕ, zero, suc, ◌+◌, ◌≡◌, ◌↔◌, refl, sym, ◌∙◌, ap, ap₂, some_unique, Bool, true, false, some, List,
  [], ◌∷◌, ◌++◌, All, if◌then◌else◌, arith, Bool-cases, inl, inr, append-nil, append_assoc,
  none-ne-some,
}
use org_muhkuh_tools_flasher.Common.Integers.{is_zero}
use org_muhkuh_tools_flasher.Logfiles.{Report, results, not_provided}
use org_muhkuh_tools_flasher.Regression.Results.{
  sum_results, tear_down_class, RunnerEntry, success, failure, error, skip, hard_errors,
  test_errors, code_for, main_exit_code,
}

-- The number of the summaries with errors.
abbrev pub with_errors : List Report → ℕ
with_errors [] = 0
with_errors (results r name uuid ∷ cs) =
    let n = with_errors cs in if is_zero r.err then n else suc n
with_errors (not_provided name ∷ cs) = with_errors cs

abbrev pub HasResult : Report → Type 0
HasResult (results r name uuid) = Unit
HasResult (not_provided name) = ⊥

sum_results-with_errors :
    (cs : List Report) (n : ℕ) (done : List Report)
    → All HasResult cs
    → sum_results cs n done ≡ some (n + with_errors cs, done ++ cs)
unfolding sum_results
sum_results-with_errors [] n done a =
    ap₂ (λ (k : ℕ) (l : List Report). some (k, l)) (omega arith) (sym (append-nil done))
sum_results-with_errors (results r name uuid ∷ cs) n done (h, a) =
    sum_results-with_errors cs (if is_zero r.err then n else suc n)
      (done ++ results r name uuid ∷ []) a
    ∙ ap₂ (λ (k : ℕ) (l : List Report). some (k, l)) (step (is_zero r.err))
        (append_assoc done (results r name uuid ∷ []) cs)
  where
    step :
        (b : Bool)
        → (if b then n else suc n) + with_errors cs
          ≡ n + (if b then with_errors cs else suc (with_errors cs))
    step true = refl
    step false = omega arith
sum_results-with_errors (not_provided name ∷ cs) n done (h, a) = elim h [ ]

sum_results-HasResult :
    (cs : List Report) (n : ℕ) (done : List Report) (r : ℕ × List Report)
    → sum_results cs n done ≡ some r
    → All HasResult cs
unfolding sum_results
sum_results-HasResult [] n done r e = tt
sum_results-HasResult (results x name uuid ∷ cs) n done r e = (tt, sum_results-HasResult cs _ _ r e)
sum_results-HasResult (not_provided name ∷ cs) n done r e = absurd (none-ne-some r e)

-- A summary without errors.
abbrev pub IsClean : Report → Type 0
IsClean (results r name uuid) = is_zero r.err ≡ true
IsClean (not_provided name) = ⊥

IsClean-of : (cs : List Report) → All HasResult cs → with_errors cs ≡ 0 → All IsClean cs
IsClean-of [] a e = tt
IsClean-of (results r name uuid ∷ cs) (h, a) e = elim (Bool-cases (is_zero r.err)) [
  | inl z ↦ (z, IsClean-of cs a (sym (rw z refl) ∙ e))
  | inr z ↦ absurd (ground arith)
]
IsClean-of (not_provided name ∷ cs) (h, a) e = elim h [ ]

of_clean : (cs : List Report) → All IsClean cs → (All HasResult cs) × (with_errors cs ≡ 0)
of_clean [] a = (tt, refl)
of_clean (results r name uuid ∷ cs) (z, a) = let (h, e) = of_clean cs a in ((tt, h), rw z e)
of_clean (not_provided name ∷ cs) (z, a) = elim z [ ]

-- If each summary has a result, the total is the number of those with errors, beside all of them;
-- if one has none, the summary raises. The total is 0 exactly if each summary has a result without
-- errors.
pub tear_down_class_cases :
    (cs : List Report)
    → (All HasResult cs → tear_down_class cs ≡ some (with_errors cs, cs))
      × ((r : ℕ × List Report) → tear_down_class cs ≡ some r → All HasResult cs)
      × (tear_down_class cs ≡ some (0, cs) ↔ All IsClean cs)
unfolding tear_down_class
tear_down_class_cases cs =
    let counted : All HasResult cs → sum_results cs 0 [] ≡ some (with_errors cs, cs) =
      λ a. sum_results-with_errors cs 0 [] a ∙ ap (λ k. some (k, cs)) (omega arith) in
    (
      counted,
      λ r e. sum_results-HasResult cs 0 [] r e,
      (
        λ e.
            let a = sum_results-HasResult cs 0 [] (0, cs) e in
            IsClean-of cs a (ap (λ (q : ℕ × List Report). q.0) (some_unique (counted a) e)),
        λ c. let (a, z) = of_clean cs c in counted a ∙ ap (λ k. some (k, cs)) z,
      ),
    )

abbrev pub IsFine : RunnerEntry → Type 0
IsFine success = Unit
IsFine skip = Unit
IsFine failure = ⊥
IsFine error = ⊥

IsFine-of : (es : List RunnerEntry) → hard_errors es ≡ 0 → test_errors es ≡ 0 → All IsFine es
unfolding hard_errors test_errors
IsFine-of [] h t = tt
IsFine-of (success ∷ es) h t = (tt, IsFine-of es h t)
IsFine-of (skip ∷ es) h t = (tt, IsFine-of es h t)
IsFine-of (failure ∷ es) h t = absurd (omega arith)
IsFine-of (error ∷ es) h t = absurd (omega arith)

of_fine : (es : List RunnerEntry) → All IsFine es → (hard_errors es ≡ 0) × (test_errors es ≡ 0)
unfolding hard_errors test_errors
of_fine [] a = (refl, refl)
of_fine (success ∷ es) (f, a) = of_fine es a
of_fine (skip ∷ es) (f, a) = of_fine es a
of_fine (failure ∷ es) (f, a) = elim f [ ]
of_fine (error ∷ es) (f, a) = elim f [ ]

code_zero : (m n : ℕ) → code_for m n ≡ 0 → (m ≡ 0) × (n ≡ 0)
code_zero zero zero e = (refl, refl)
code_zero zero (suc n) e = absurd (omega arith)
code_zero (suc m) n e = absurd (omega arith)

-- The script ends with 0 exactly if no test failed or raised; skipped tests do not count.
pub main_exit_code-IsFine : (es : List RunnerEntry) → main_exit_code es ≡ 0 ↔ All IsFine es
unfolding main_exit_code
main_exit_code-IsFine es = (
  λ e. let (h, t) = code_zero (hard_errors es) (test_errors es) e in IsFine-of es h t,
  λ a. let (h, t) = of_fine es a in ap₂ code_for h t,
)
