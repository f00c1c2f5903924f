-- ===== src/Regression/Tests.antt =====
-- A chip with one large SQI flash and internal flashes, and cases without errors.
use org_muhkuh_tools_flasher.Common.{
  ℕ, ◌+◌, ◌==◌, if◌then◌else◌, ◌≡◌, ◌↔◌, refl, sym, Option, none, some, List, [], ◌∷◌,
}
use org_muhkuh_tools_flasher.Common.Io.{Io, ◌>>=◌, return, result_is}
use org_muhkuh_tools_flasher.Common.Words.{codes}
use org_muhkuh_tools_flasher.Common.Integers.{ℤ, pos, negsuc}
use org_muhkuh_tools_flasher.Logfiles.{Report, results}
use org_muhkuh_tools_flasher.Dyntest.{Memory, Size, bytes}
use org_muhkuh_tools_flasher.Regression.{
  Case, flt_standard_sqi_flash, flt_standard_other_flash, passed, failed, is_large_sqi, is_no_sqi,
  test_all, test_standard_sqi_flash, test_standard_other_flashes,
}
use org_muhkuh_tools_flasher.Regression.Selection.{
  Connected, Setup, assignment_list, protocol_alias, set_up_class,
}
use org_muhkuh_tools_flasher.Regression.Results.{
  success, failure, skip, main_exit_code, tear_down_class,
}
use org_muhkuh_tools_flasher.Regression.Summed.{
  HasResult, IsClean, tear_down_class_cases, IsFine, main_exit_code-IsFine,
}
use org_muhkuh_tools_flasher.Regression.Loop.{selected, verdict, run_each, test_all-selected}
use org_muhkuh_tools_flasher.Regression.Outcomes.{
  AllRunClean, standard_tests-passed, IsCovered, set_up_class-IsCovered,
}
use org_muhkuh_tools_flasher.Common.{All}

abbrev sqi : Memory
sqi = record { b = 1; u = 0; cs = 0; name = codes "W25Q32"; size = bytes 4194304 }

abbrev internal : Memory
internal = record { b = 2; u = 0; cs = 0; name = codes "INT flash 0"; size = bytes 524288 }

abbrev memories : List Memory
memories = sqi ∷ internal ∷ []

-- The state counts the runs.
abbrev clean_case : Case → Size → Memory → Io ℕ ℤ
clean_case tc size m w = (some (pos 0), w + 1)

standard_tests-passed_example :
    AllRunClean clean_case flt_standard_other_flash (bytes 1048576) (internal ∷ []) 0 1
    × AllRunClean clean_case flt_standard_sqi_flash (bytes 1048576) (sqi ∷ []) 1 2
unfolding is_large_sqi is_no_sqi test_standard_sqi_flash test_standard_other_flashes
standard_tests-passed_example =
    standard_tests-passed clean_case (codes "all" ∷ []) 13 memories 0 1 2
      (λ tc size m w v n e. (0, sym (result_is e).0)) refl refl

-- Two errors and a missing folder, which counts -1, twice.
abbrev odd_case : Case → Size → Memory → Io ℕ ℤ
odd_case tc size m w = (some (if w == 0 then pos 1 else negsuc 0), w + 1)

test_all-selected_example :
    test_all odd_case is_large_sqi failed flt_standard_sqi_flash
      (bytes 1048576)
      (sqi ∷ internal ∷ sqi ∷ [])
      0
    ≡ (run_each odd_case flt_standard_sqi_flash
            (bytes 1048576)
            (selected is_large_sqi (sqi ∷ internal ∷ sqi ∷ []))
          >>= λ rs. return (verdict failed rs))
        0
test_all-selected_example =
    test_all-selected odd_case is_large_sqi failed flt_standard_sqi_flash (bytes 1048576)
      (sqi ∷ internal ∷ sqi ∷ []) 0

-- The errors cancel out: the test passes.
cancelled :
    (test_all odd_case is_large_sqi failed flt_standard_sqi_flash
      (bytes 1048576)
      (sqi ∷ sqi ∷ [])
      0).0
    ≡ some passed
unfolding test_all is_large_sqi
cancelled = refl

abbrev netx : Connected
netx = record {
  port = codes "romloader_usb_00_01";
  type_number = 13;
  type_identifier = codes "ROMLOADER_CHIPTYP_NETX90";
  flasher_name = codes "romloader_usb";
}

abbrev or_else : Setup → Option Setup → Setup
or_else s none = s
or_else s (some t) = t

abbrev empty : Setup
empty = record {
  plugin_name = [];
  netx_port = [];
  netx_protocol = [];
  netx_chip_type = 0;
  netx_chip_type_id = [];
  memories_to_test = [];
}

abbrev setup : Setup
unfolding set_up_class
setup = or_else empty (set_up_class (netx ∷ []))

set_up_class-IsCovered_example :
    (n : Connected) × (netx ∷ [] ≡ n ∷ [])
    × (setup.plugin_name ≡ n.port)
    × (setup.netx_chip_type ≡ n.type_number)
    × (protocol_alias assignment_list n.flasher_name ≡ some setup.netx_protocol)
    × IsCovered setup.memories_to_test
unfolding setup
set_up_class-IsCovered_example = set_up_class-IsCovered (netx ∷ []) setup refl

abbrev reports : List Report
reports =
    results (record { err = pos 0; name = codes "A"; num_test = 3 }) (codes "a") none
    ∷ results (record { err = pos 2; name = codes "B"; num_test = 4 }) (codes "b") none
    ∷ []

tear_down_class_cases_example :
    (All HasResult reports → tear_down_class reports ≡ some (1, reports))
    × ((r : ℕ × List Report) → tear_down_class reports ≡ some r → All HasResult reports)
    × (tear_down_class reports ≡ some (0, reports) ↔ All IsClean reports)
tear_down_class_cases_example = tear_down_class_cases reports

main_exit_code-IsFine_example :
    main_exit_code (success ∷ skip ∷ failure ∷ []) ≡ 0 ↔ All IsFine (success ∷ skip ∷ failure ∷ [])
main_exit_code-IsFine_example = main_exit_code-IsFine (success ∷ skip ∷ failure ∷ [])
