-- ===== src/Regression.antt =====
-- regression/test_regression.py: the regression test of a connected chip. Selection chooses the memories,
-- the tests are here, Results is the summary and the exit code. A test case of a memory is a parameter: it
-- is run on a state of any type, and returns the errors of its last result.
pub mod Selection
pub mod Results
pub mod Summed
pub mod Loop
pub mod Outcomes
mod Tests
use org_muhkuh_tools_flasher.Common.{
  ℕ, zero, suc, Bool, true, false, not, ◌&&◌, ◌||◌, Option, none, some, List, [], ◌∷◌, ◌==◌,
  if◌then◌else◌,
}
use org_muhkuh_tools_flasher.Common.Io.{Io, ◌>>=◌, ◌>>◌, return}
use org_muhkuh_tools_flasher.Common.Words.{Word, codes, eq_word}
use org_muhkuh_tools_flasher.Common.Integers.{ℤ, pos, ◌+ℤ◌, is_zero}
use org_muhkuh_tools_flasher.Dyntest.{Memory, Size, bytes, text, le_size}

-- The test cases: their class, with the comment for the log files if one is set.
pub data Case : Type 0 where
  flt_standard_sqi_flash : Case
  flt_standard_other_flash : Case
  flt_hash : Case
  flt_testcli_sqi_flash : Case
  nxtflasher_51 : Case
  nxtflasher_55 : Case

-- How a test ends, if no exception is raised.
pub data Outcome : Type 0 where
  passed : Outcome
  failed : Outcome
  skipped : Outcome

-- `in` for the list of groups, and for the list of chip types.
unfoldable pub is_one_of : Word → List Word → Bool
is_one_of w [] = false
is_one_of w (v ∷ vs) = eq_word w v || is_one_of w vs

unfoldable pub is_type : ℕ → List ℕ → Bool
is_type n [] = false
is_type n (m ∷ ms) = n == m || is_type n ms

-- A test is enabled by one of its groups.
unfoldable pub enabled : List Word → List Word → Bool
unfolding is_one_of
enabled groups [] = false
enabled groups (group ∷ run_tests_groups) =
    is_one_of group groups || enabled groups run_tests_groups

unfoldable pub is_external_sqi : Memory → Bool
is_external_sqi memory = memory.b == 1 && memory.u == 0 && memory.cs == 0

-- `memory["size"] > 1 * 1024 * 1024`
unfoldable pub is_large : Memory → Bool
unfolding le_size
is_large memory = not (le_size memory.size (bytes 1048576))

unfoldable pub is_large_sqi : Memory → Bool
unfolding is_external_sqi is_large
is_large_sqi memory = is_external_sqi memory && is_large memory

unfoldable pub is_no_sqi : Memory → Bool
unfolding is_external_sqi
is_no_sqi memory = not (is_external_sqi memory)

module _ {W : Type 0} (run_case : Case → Size → Memory → Io W ℤ) where
  -- The loop over the memories, with `test_started` and `test_results`.
  unfoldable pub test_memories :
      (Memory → Bool) → Case → Size → List Memory → Bool → ℤ → Io W (Bool × ℤ)
  unfolding ◌>>=◌ ◌+ℤ◌
  test_memories wanted tc size [] test_started test_results = return (test_started, test_results)
  test_memories wanted tc size (memory ∷ memories) test_started test_results =
      if wanted memory
      then (do
        test_result ← run_case tc size memory
        test_memories wanted tc size memories true (test_results +ℤ test_result))
      else test_memories wanted tc size memories test_started test_results

  -- `assertEqual(0, test_results)` if a test was started, else the other outcome.
  judge : Outcome → Bool × ℤ → Outcome
  judge otherwise (true, test_results) = if is_zero test_results then passed else failed
  judge otherwise (false, test_results) = otherwise

  unfoldable pub test_all : (Memory → Bool) → Outcome → Case → Size → List Memory → Io W Outcome
  unfolding test_memories judge ◌>>=◌
  test_all wanted otherwise tc size memories = do
    result ← test_memories wanted tc size memories false (pos 0)
    return (judge otherwise result)

  unfoldable pub test_standard_sqi_flash : List Word → ℕ → List Memory → Io W Outcome
  unfolding enabled is_large_sqi test_all
  test_standard_sqi_flash groups chip memories =
      if enabled (codes "regr_short" ∷ codes "regr_standard" ∷ codes "all" ∷ []) groups
      then test_all is_large_sqi failed flt_standard_sqi_flash (bytes 1048576) memories
      else return skipped

  unfoldable pub test_standard_other_flashes : List Word → ℕ → List Memory → Io W Outcome
  unfolding enabled is_no_sqi test_all
  test_standard_other_flashes groups chip memories =
      if enabled (codes "regr_standard" ∷ codes "all" ∷ []) groups
      then test_all is_no_sqi skipped flt_standard_other_flash (bytes 1048576) memories
      else return skipped

  unfoldable pub test_hash_sqi_flash : List Word → ℕ → List Memory → Io W Outcome
  unfolding enabled is_type is_large_sqi test_all
  test_hash_sqi_flash groups chip memories =
      if enabled (codes "regr_standard" ∷ codes "all" ∷ []) groups
      then if is_type chip (10 ∷ 13 ∷ 14 ∷ 15 ∷ 16 ∷ [])
        then return skipped
        else test_all is_large_sqi failed flt_hash (bytes 1048576) memories
      else return skipped

  unfoldable pub test_testcli_sqi_flash : List Word → ℕ → List Memory → Io W Outcome
  unfolding enabled is_external_sqi test_all
  test_testcli_sqi_flash groups chip memories =
      if enabled (codes "regr_long" ∷ codes "all" ∷ []) groups
      then test_all is_external_sqi failed flt_testcli_sqi_flash (text []) memories
      else return skipped

  unfoldable pub test_nxtflasher_51 : List Word → ℕ → List Memory → Io W Outcome
  unfolding enabled is_type is_large_sqi test_all
  test_nxtflasher_51 groups chip memories =
      if enabled (codes "NXTFLASHER_51" ∷ codes "all" ∷ []) groups
      then if is_type chip (7 ∷ [])
        then test_all is_large_sqi skipped nxtflasher_51 (text []) memories
        else return skipped
      else return skipped

  -- The dummy values of the memory.
  abbrev pub dummy : Memory
  dummy = record { b = 2; u = 3; cs = 0; name = codes "INT flash 0/1"; size = bytes 1048576 }

  unfoldable pub test_nxtflasher_55 : List Word → ℕ → List Memory → Io W Outcome
  unfolding enabled is_type ◌>>=◌
  test_nxtflasher_55 groups chip memories =
      if enabled (codes "NXTFLASHER_55" ∷ codes "all" ∷ []) groups
      then if is_type chip (13 ∷ [])
        then (do
          test_result ← run_case nxtflasher_55 (text []) dummy
          return (if is_zero test_result then passed else failed))
        else return skipped
      else return skipped
