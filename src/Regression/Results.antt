-- ===== src/Regression/Results.antt =====
-- `tearDownClass` and the end of the script: the summary of all results, and the exit code.
use org_muhkuh_tools_flasher.Common.{
  ℕ, zero, suc, Option, none, some, List, [], ◌∷◌, ◌++◌, if◌then◌else◌, ◌>>=◌,
}
use org_muhkuh_tools_flasher.Common.Integers.{ℤ, is_zero}
use org_muhkuh_tools_flasher.Logfiles.{Report, results, not_provided}

-- The key "result" of a summary; one that was written without results has none.
abbrev pub result_of : Report → Option ℤ
result_of (results r name uuid) = some r.err
result_of (not_provided name) = none

-- The loop over the JSON files: the number of those with errors, and their contents.
unfoldable pub sum_results : List Report → ℕ → List Report → Option (ℕ × List Report)
sum_results [] sum_result sum_tests = some (sum_result, sum_tests)
sum_results (content ∷ contents) sum_result sum_tests = do
  result ← result_of content
  sum_results contents (if is_zero result then sum_result else suc sum_result)
      (sum_tests ++ content ∷ [])

unfoldable pub tear_down_class : List Report → Option (ℕ × List Report)
unfolding sum_results
tear_down_class contents = sum_results contents 0 []

-- What the runner reports of one test: an outcome of the test, or an exception.
pub data RunnerEntry : Type 0 where
  success : RunnerEntry
  failure : RunnerEntry
  error : RunnerEntry
  skip : RunnerEntry

unfoldable pub hard_errors : List RunnerEntry → ℕ
hard_errors [] = 0
hard_errors (error ∷ es) = suc (hard_errors es)
hard_errors (success ∷ es) = hard_errors es
hard_errors (failure ∷ es) = hard_errors es
hard_errors (skip ∷ es) = hard_errors es

unfoldable pub test_errors : List RunnerEntry → ℕ
test_errors [] = 0
test_errors (failure ∷ es) = suc (test_errors es)
test_errors (success ∷ es) = test_errors es
test_errors (error ∷ es) = test_errors es
test_errors (skip ∷ es) = test_errors es

-- `exit(2)`, `exit(1)`, or the end of the script.
abbrev pub code_for : ℕ → ℕ → ℕ
code_for (suc n) m = 2
code_for zero (suc m) = 1
code_for zero zero = 0

unfoldable pub main_exit_code : List RunnerEntry → ℕ
unfolding hard_errors test_errors
main_exit_code es = code_for (hard_errors es) (test_errors es)
