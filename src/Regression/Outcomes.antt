-- ===== src/Regression/Outcomes.antt =====
-- What a test that passes has shown, and that the two standard tests cover the memories of a chip.
use org_muhkuh_tools_flasher.Common.{
  ℕ, zero, suc, ◌+◌, ◌≡◌, ◌≢◌, refl, sym, ◌∙◌, ap, subst, Bool, true, false, not, some, List, [],
  ◌∷◌, All, if◌then◌else◌, ◌==◌, arith, Bool-cases, Option-cases, inl, inr, false≢true,
  none-ne-some, some-injective,
}
use org_muhkuh_tools_flasher.Common.Io.{Io, ◌>>=◌, return, bind_some, result_is}
use org_muhkuh_tools_flasher.Common.Words.{Word, codes}
use org_muhkuh_tools_flasher.Common.Integers.{ℤ, pos, ◌+ℤ◌, is_zero}
use org_muhkuh_tools_flasher.Dyntest.{Memory, Size, bytes}
use org_muhkuh_tools_flasher.Regression.{
  Case, flt_standard_sqi_flash, flt_standard_other_flash, Outcome, passed, failed, skipped, enabled,
  is_large_sqi, is_no_sqi, test_all, test_standard_sqi_flash, test_standard_other_flashes,
}
use org_muhkuh_tools_flasher.Regression.Loop.{
  selected, is_filled, total, verdict, run_each, test_all-selected,
}
use org_muhkuh_tools_flasher.Regression.Selection.{
  Connected, Chip, Setup, select_list, assignment_list, protocol_alias, port_type, find_chip,
  select_chip, set_up_class,
}

-- A list that is not empty.
abbrev pub has_any : List Memory → Bool
has_any [] = false
has_any (m ∷ ms) = true

-- A number of errors, which is not negative.
abbrev pub IsCount : ℤ → Type 0
IsCount n = (k : ℕ) × (n ≡ pos k)

total-zero :
    (a : ℕ) (rs : List ℤ)
    → All IsCount rs
    → is_zero (total (pos a) rs) ≡ true
    → (a ≡ 0) × All (λ r. r ≡ pos 0) rs
unfolding ◌+ℤ◌
total-zero zero [] c h = (refl, tt)
total-zero (suc a) [] c h = absurd (false≢true h)
total-zero a (r ∷ rs) ((k, e), c) h =
    let (s, rest) = total-zero (a + k) rs c (sym (rw e refl) ∙ h) in
    let z : k ≡ 0 = omega arith in (omega arith, (e ∙ ap pos z, rest))

abbrev is_passed : Outcome → Bool
is_passed passed = true
is_passed failed = false
is_passed skipped = false

not_passed : (o : Outcome) → is_passed o ≡ false → o ≢ passed
not_passed o h e = false≢true (sym h ∙ ap is_passed e)

passed-zero : (b : Bool) → (if b then passed else failed) ≡ passed → b ≡ true
passed-zero true e = refl
passed-zero false e = absurd (not_passed failed refl e)

verdict-passed :
    (otherwise : Outcome) (rs : List ℤ)
    → otherwise ≢ passed
    → All IsCount rs
    → verdict otherwise rs ≡ passed
    → (is_filled rs ≡ true) × All (λ r. r ≡ pos 0) rs
verdict-passed otherwise [] o c h = absurd (o h)
verdict-passed otherwise (r ∷ rs) o c h =
    (refl, (total-zero 0 (r ∷ rs) c (passed-zero (is_zero (total (pos 0) (r ∷ rs))) h)).1)

module _ {W : Type 0} (run_case : Case → Size → Memory → Io W ℤ) where
  -- The cases count their errors.
  abbrev pub CountsErrors : Type 0
  CountsErrors =
      (tc : Case) (size : Size) (m : Memory) (w v : W) (n : ℤ)
      → run_case tc size m w ≡ (some n, v)
      → IsCount n

  run_each-IsCount :
      (tc : Case) (size : Size) (ms : List Memory) (w v : W) (rs : List ℤ)
      → CountsErrors
      → run_each run_case tc size ms w ≡ (some rs, v)
      → All IsCount rs
  unfolding run_each
  run_each-IsCount tc size [] w v rs c e = subst (All IsCount) (result_is e).0 tt
  run_each-IsCount tc size (m ∷ ms) w v rs c e =
      let (r, u, f, g) =
        bind_some (run_case tc size m) (λ r. run_each run_case tc size ms >>= λ rs. return (r ∷ rs))
          e in
      let (qs, x, h, i) = bind_some (run_each run_case tc size ms) (λ rs. return (r ∷ rs)) g in
      subst (All IsCount) (result_is i).0
        (c tc size m w u r f, run_each-IsCount tc size ms u x qs c h)

  -- The case was run for each of these memories, for one at least, without an error.
  abbrev pub AllRunClean : Case → Size → List Memory → W → W → Type 0
  AllRunClean tc size ms w v =
      (rs : List ℤ) × (run_each run_case tc size ms w ≡ (some rs, v))
      × (is_filled rs ≡ true)
      × All (λ r. r ≡ pos 0) rs

  pub test_all-passed :
      (wanted : Memory → Bool) (otherwise : Outcome) (tc : Case) (size : Size) (ms : List Memory)
      (w v : W)
      → CountsErrors
      → otherwise ≢ passed
      → test_all run_case wanted otherwise tc size ms w ≡ (some passed, v)
      → AllRunClean tc size (selected wanted ms) w v
  test_all-passed wanted otherwise tc size ms w v c o e =
      let (rs, u, f, g) =
        bind_some (run_each run_case tc size (selected wanted ms))
          (λ rs. return (verdict otherwise rs))
          (sym (test_all-selected run_case wanted otherwise tc size ms w) ∙ e) in
      let (same, world) = result_is g in
      let (filled, clean) =
        verdict-passed otherwise rs o (run_each-IsCount tc size (selected wanted ms) w u rs c f)
          same in
      (rs, f ∙ ap (λ x. (some rs, x)) world, filled, clean)

  enabled_passed :
      (b : Bool) (wanted : Memory → Bool) (otherwise : Outcome) (tc : Case) (size : Size)
      (ms : List Memory) (w v : W)
      → CountsErrors
      → otherwise ≢ passed
      → (if b then test_all run_case wanted otherwise tc size ms else return skipped) w
        ≡ (some passed, v)
      → AllRunClean tc size (selected wanted ms) w v
  enabled_passed true wanted otherwise tc size ms w v c o e =
      test_all-passed wanted otherwise tc size ms w v c o e
  enabled_passed false wanted otherwise tc size ms w v c o e =
      absurd (not_passed skipped refl (result_is e).0)

  sqi-passed :
      (groups : List Word) (chip : ℕ) (ms : List Memory) (w v : W)
      → CountsErrors
      → test_standard_sqi_flash run_case groups chip ms w ≡ (some passed, v)
      → AllRunClean flt_standard_sqi_flash (bytes 1048576) (selected is_large_sqi ms) w v
  unfolding test_standard_sqi_flash
  sqi-passed groups chip ms w v c e =
      enabled_passed
        (enabled (codes "regr_short" ∷ codes "regr_standard" ∷ codes "all" ∷ []) groups)
        is_large_sqi failed flt_standard_sqi_flash (bytes 1048576) ms w v c (not_passed failed refl)
        e

  other-passed :
      (groups : List Word) (chip : ℕ) (ms : List Memory) (w v : W)
      → CountsErrors
      → test_standard_other_flashes run_case groups chip ms w ≡ (some passed, v)
      → AllRunClean flt_standard_other_flash (bytes 1048576) (selected is_no_sqi ms) w v
  unfolding test_standard_other_flashes
  other-passed groups chip ms w v c e =
      enabled_passed (enabled (codes "regr_standard" ∷ codes "all" ∷ []) groups) is_no_sqi skipped
        flt_standard_other_flash (bytes 1048576) ms w v c (not_passed skipped refl) e

  -- If the two standard tests pass one after the other, whatever the groups and the chip, and no
  -- case returns a negative number: the case of the first was run without an error for each memory
  -- that is no external SQI flash, that of the second for each external SQI flash of more than 1
  -- MiB, and each for one memory at least.
  pub standard_tests-passed :
      (groups : List Word) (chip : ℕ) (ms : List Memory) (w u v : W)
      → CountsErrors
      → test_standard_other_flashes run_case groups chip ms w ≡ (some passed, u)
      → test_standard_sqi_flash run_case groups chip ms u ≡ (some passed, v)
      → AllRunClean flt_standard_other_flash (bytes 1048576) (selected is_no_sqi ms) w u
        × AllRunClean flt_standard_sqi_flash (bytes 1048576) (selected is_large_sqi ms) u v
  standard_tests-passed groups chip ms w u v c e f =
      (other-passed groups chip ms w u c e, sqi-passed groups chip ms u v c f)

-- Each memory is for exactly one of the two tests, and one at least is a large SQI flash.
abbrev pub IsCovered : List Memory → Type 0
IsCovered ms =
    All (λ m. not (is_no_sqi m) ≡ is_large_sqi m) ms × (has_any (selected is_large_sqi ms) ≡ true)

select_list-IsCovered : All (λ (c : Chip). IsCovered c.memories) select_list
unfolding is_no_sqi is_large_sqi
select_list-IsCovered = ground arith

find_chip-All :
    (P : Chip → Type 0) (cs : List Chip) (id : ℕ) (c : Chip)
    → All P cs
    → find_chip cs id ≡ some c
    → P c × (c.id ≡ id)
unfolding find_chip
find_chip-All P [] id c a e = absurd (none-ne-some c e)
find_chip-All P (d ∷ cs) id c (p, a) e = elim (Bool-cases (d.id == id)) [
  | inl h ↦
      let same = some-injective d c (sym (rw h refl) ∙ e) in
      subst (λ (x : Chip). P x × (x.id ≡ id)) same (p, ground arith)
  | inr h ↦ find_chip-All P cs id c a (sym (rw h refl) ∙ e)
]

module _ (netx : Connected) where
  build : Word → Chip → Setup
  build alias found = record {
    plugin_name = netx.port;
    netx_port = port_type found.assigned alias;
    netx_protocol = alias;
    netx_chip_type = netx.type_number;
    netx_chip_type_id = netx.type_identifier;
    memories_to_test = found.memories;
  }

  select_chip-parts :
      (s : Setup)
      → select_chip netx ≡ some s
      → (alias : Word) × (found : Chip) × (protocol_alias assignment_list netx.flasher_name
          ≡ some alias)
        × (find_chip select_list netx.type_number ≡ some found)
        × (build alias found ≡ s)
  unfolding select_chip build
  select_chip-parts s e = elim (Option-cases (protocol_alias assignment_list netx.flasher_name)) [
    | inl n ↦ absurd (none-ne-some s (sym (rw n refl) ∙ e))
    | inr (alias, n) ↦ elim (Option-cases (find_chip select_list netx.type_number)) [
      | inl m ↦ absurd (none-ne-some s (sym (rw (n, m) refl) ∙ e))
      | inr (found, m) ↦
          (alias, found, n, m, some-injective (build alias found) s (sym (rw (n, m) refl) ∙ e))
    ]
  ]

-- The class is only set up for exactly one connected chip, with its port, its type and a protocol
-- of the list; each of its memories is then wanted by exactly one of the two standard tests, and
-- one at least by that of the external SQI flashes.
pub set_up_class-IsCovered :
    (netxs : List Connected) (s : Setup)
    → set_up_class netxs ≡ some s
    → (netx : Connected) × (netxs ≡ netx ∷ [])
      × (s.plugin_name ≡ netx.port)
      × (s.netx_chip_type ≡ netx.type_number)
      × (protocol_alias assignment_list netx.flasher_name ≡ some s.netx_protocol)
      × IsCovered s.memories_to_test
unfolding set_up_class build
set_up_class-IsCovered [] s e = absurd (none-ne-some s e)
set_up_class-IsCovered (netx ∷ []) s e =
    let (alias, found, p, f, same) = select_chip-parts netx s e in
    let (covered, _) =
      find_chip-All (λ c. IsCovered c.memories) select_list netx.type_number found
        select_list-IsCovered f in
    (
      netx,
      refl,
      ap (λ (x : Setup). x.plugin_name) (sym same),
      ap (λ (x : Setup). x.netx_chip_type) (sym same),
      p ∙ ap (λ (x : Setup). some x.netx_protocol) same,
      subst (λ (x : Setup). IsCovered x.memories_to_test) same covered,
    )
set_up_class-IsCovered (netx ∷ (other ∷ more)) s e = absurd (none-ne-some s e)
