-- ===== src/Regression/Loop.antt =====
-- The loop over the memories is: select, run each, add the errors.
use org_muhkuh_tools_flasher.Common.{
  ◌≡◌, refl, sym, ◌∙◌, ap, Bool, true, false, ◌||◌, some, List, [], ◌∷◌, if◌then◌else◌, Bool-cases,
  inl, inr,
}
use org_muhkuh_tools_flasher.Common.Io.{
  Io, ◌>>=◌, return, bind_assoc, bind_same, return_bind, bind_cong,
}
use org_muhkuh_tools_flasher.Common.Integers.{ℤ, pos, ◌+ℤ◌, is_zero}
use org_muhkuh_tools_flasher.Dyntest.{Memory, Size}
use org_muhkuh_tools_flasher.Regression.{
  Case, Outcome, passed, failed, judge, test_memories, test_all,
}

-- The memories that a test wants.
abbrev pub selected : (Memory → Bool) → List Memory → List Memory
selected wanted [] = []
selected wanted (m ∷ ms) = let rest = selected wanted ms in if wanted m then m ∷ rest else rest

abbrev pub is_filled : List ℤ → Bool
is_filled [] = false
is_filled (r ∷ rs) = true

-- The errors that the runs add.
abbrev pub total : ℤ → List ℤ → ℤ
total n [] = n
total n (r ∷ rs) = total (n +ℤ r) rs

-- The outcome of the results of the runs.
abbrev pub verdict : Outcome → List ℤ → Outcome
verdict otherwise [] = otherwise
verdict otherwise (r ∷ rs) = if is_zero (total (pos 0) (r ∷ rs)) then passed else failed

or_true : (b : Bool) → (b || true) ≡ true
or_true true = refl
or_true false = refl

module _ {W : Type 0} (run_case : Case → Size → Memory → Io W ℤ) where
  -- The case for each memory, in order.
  unfoldable pub run_each : Case → Size → List Memory → Io W (List ℤ)
  unfolding ◌>>=◌
  run_each tc size [] = return []
  run_each tc size (m ∷ ms) = do r ← run_case tc size m; rs ← run_each tc size ms; return (r ∷ rs)

  -- What the loop leaves after these results.
  abbrev after : Bool → ℤ → List ℤ → Io W (Bool × ℤ)
  after b n rs = return (b || is_filled rs, total n rs)

  test_memories-selected :
      (wanted : Memory → Bool) (tc : Case) (size : Size) (ms : List Memory) (b : Bool) (n : ℤ)
      (w : W)
      → test_memories run_case wanted tc size ms b n w
        ≡ (run_each tc size (selected wanted ms) >>= after b n) w
  unfolding test_memories run_each
  test_memories-selected wanted tc size [] b n w = start b n w
    where
      start : (b : Bool) (n : ℤ) (w : W) → return (b, n) w ≡ (return [] >>= after b n) w
      start true n w = sym (return_bind [] (after true n) w)
      start false n w = sym (return_bind [] (after false n) w)
  test_memories-selected wanted tc size (m ∷ ms) b n w = elim (Bool-cases (wanted m)) [
    | inr e ↦ rw e (test_memories-selected wanted tc size ms b n w)
    | inl e ↦ rw e (
        bind_cong (run_case tc size m) (λ r. test_memories run_case wanted tc size ms true (n +ℤ r))
          (λ r. run_each tc size (selected wanted ms) >>= after true (n +ℤ r)) w
          (λ r v. test_memories-selected wanted tc size ms true (n +ℤ r) v)
        ∙ sym (
            bind_assoc (run_case tc size m) one (after b n) w
            ∙ bind_cong (run_case tc size m) (λ r. one r >>= after b n)
                (λ r. run_each tc size (selected wanted ms) >>= after true (n +ℤ r)) w
                (λ r v.
                  bind_assoc (run_each tc size (selected wanted ms)) (λ rs. return (r ∷ rs))
                    (after b n) v
                  ∙ bind_cong (run_each tc size (selected wanted ms))
                      (λ rs. return (r ∷ rs) >>= after b n) (after true (n +ℤ r)) v
                      (λ rs u.
                        return_bind (r ∷ rs) (after b n) u
                        ∙ ap (λ c. (some (c, total (n +ℤ r) rs), u)) (or_true b)))))
  ]
    where
      one : ℤ → Io W (List ℤ)
      one r = run_each tc size (selected wanted ms) >>= λ rs. return (r ∷ rs)

  judge-verdict :
      (otherwise : Outcome) (rs : List ℤ)
      → judge run_case otherwise (is_filled rs, total (pos 0) rs) ≡ verdict otherwise rs
  unfolding judge
  judge-verdict otherwise [] = refl
  judge-verdict otherwise (r ∷ rs) = refl

  -- A test over the memories is the same as: select the memories that it wants, run its case for
  -- each in order, and judge the sum of the errors; it also raises in the same cases and leaves
  -- the same state.
  pub test_all-selected :
      (wanted : Memory → Bool) (otherwise : Outcome) (tc : Case) (size : Size) (ms : List Memory)
      (w : W)
      → test_all run_case wanted otherwise tc size ms w
        ≡ (run_each tc size (selected wanted ms) >>= λ rs. return (verdict otherwise rs)) w
  unfolding test_all judge
  test_all-selected wanted otherwise tc size ms w =
      bind_same (test_memories run_case wanted tc size ms false (pos 0))
        (run_each tc size (selected wanted ms) >>= after false (pos 0))
        (λ r. return (judge run_case otherwise r)) w
        (test_memories-selected wanted tc size ms false (pos 0) w)
      ∙ bind_assoc (run_each tc size (selected wanted ms)) (after false (pos 0))
          (λ r. return (judge run_case otherwise r)) w
      ∙ bind_cong (run_each tc size (selected wanted ms))
          (λ rs. after false (pos 0) rs >>= λ r. return (judge run_case otherwise r))
          (λ rs. return (verdict otherwise rs)) w
          (λ rs v.
            return_bind (is_filled rs, total (pos 0) rs) (λ r. return (judge run_case otherwise r))
              v
            ∙ ap (λ o. (some o, v)) (judge-verdict otherwise rs))
