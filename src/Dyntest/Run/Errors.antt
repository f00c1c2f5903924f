-- ===== src/Dyntest/Run/Errors.antt =====
-- What a batch adds to the errors of a test.
use org_muhkuh_tools_flasher.Common.{
  ℕ, ◌≡◌, refl, sym, ◌∙◌, ap, ap₂, subst, false≢true, false, Option, none, some, List, [], ◌∷◌,
  ◌++◌, All, ◌⊎◌, inl, inr, none-clash, some_unique,
}
use org_muhkuh_tools_flasher.Common.Io.{◌>>◌, return, modify, bind_some, result_is}
use org_muhkuh_tools_flasher.Common.Words.{Word}
use org_muhkuh_tools_flasher.Common.Integers.{ℤ, pos, negsuc, is_zero, magnitude}
use org_muhkuh_tools_flasher.Files.{Place, Disk}
use org_muhkuh_tools_flasher.Logfiles.{Formats, temporary, Result}
use org_muhkuh_tools_flasher.Batch.{ReturnValue, other, eval_batch_result}
use org_muhkuh_tools_flasher.Batch.Lines.{Passed, Failures, codes_of, Failures-All}
use org_muhkuh_tools_flasher.Batch.Laws.{eval_batch_result-none, eval_batch_result-Failures}
use org_muhkuh_tools_flasher.Carriers.System.{World, CommandSystem}
use org_muhkuh_tools_flasher.Carriers.{Carrier, batch_command_base}
use org_muhkuh_tools_flasher.Carriers.Batches.{Leads, AreRun, batch_command_base-AreRun}
use org_muhkuh_tools_flasher.Dyntest.{Test}
use org_muhkuh_tools_flasher.Dyntest.Summary.{text_of, entries_of}
use org_muhkuh_tools_flasher.Dyntest.Run.{
  Bench, on_world, default_carrier, summary_files, entries_if, info_of, batch_errors, result_of,
  add_errors, append_result, run_batch_commands,
}

abbrev pub return_values : {T : Type 0} → List (Carrier T) → List ReturnValue
return_values [] = []
return_values (d ∷ ds) = d.ret_val ∷ return_values ds

-- Each command returned 0, or has no return value.
abbrev pub AllReturnZero : {T : Type 0} → List (Carrier T) → Type 0
AllReturnZero ds = All Passed (return_values ds)

codes_of-entries_of :
    {T : Type 0} (float_text : T → Word) (ds : List (Carrier T))
    → codes_of (entries_of float_text ds) ≡ return_values ds
unfolding entries_of
codes_of-entries_of float_text [] = refl
codes_of-entries_of float_text (d ∷ ds) = ap (d.ret_val ∷◌) (codes_of-entries_of float_text ds)

module _ {B T : Type 0} (sys : CommandSystem (Disk B) T) (formats : Formats B) where
  -- The batch of the test, begun in a world, returned these carriers in another world.
  abbrev pub Returned :
      Word → Test → World (Disk B) → Option (List (Carrier T)) → World (Disk B) → Type 0
  Returned path t w o u =
      batch_command_base sys (default_carrier sys formats) t.command_strings path t.uuid_test w
      ≡ (some o, u)

  -- All commands of the test were run.
  abbrev pub AllRun : Word → Test → List (Carrier T) → Type 0
  AllRun path t ds =
      AreRun sys (default_carrier sys formats) path t.uuid_test 0 t.command_strings ds

  -- The -1 of a folder that is missing.
  abbrev pub NoFolder : Word → World (Disk B) → ℤ → Type 0
  NoFolder path u n = (sys.is_dir u.cwd path u.rest ≡ false) × (n ≡ negsuc 0)

  -- The batch ran all commands, and the failures among the return values of its carriers were counted;
  -- without the folder, before or after the batch, the number is -1.
  abbrev pub BatchResult : Word → Test → World (Disk B) → ℤ → Type 0
  BatchResult path t w n =
      ((ds : List (Carrier T)) × (u : World (Disk B)) × Returned path t w (some ds) u
        × AllRun path t ds
        × (NoFolder path u n ⊎ ((m : ℕ) × (n ≡ pos m) × Failures (return_values ds) m)))
      ⊎ (Returned path t w none w × NoFolder path w n)

  counted :
      (path : Word) (t : Test) (n : ℤ) (w u v : World (Disk B)) (o : Option (List (Carrier T)))
      → Leads sys w.cwd
      → Returned path t w o u
      → eval_batch_result
          (summary_files sys formats)
          (some path)
          t.logfile_prefix
          (other (info_of sys formats t))
          (entries_if sys formats o)
          u
        ≡ (some n, v)
      → BatchResult path t w n
  unfolding entries_if
  counted path t n w u v none l f g =
      elim (batch_command_base-AreRun sys (default_carrier sys formats) t.command_strings path
        t.uuid_test none w u l f) [
          | inl (missing, _, same) ↦ inr (
            f ∙ ap (λ (x : World (Disk B)). (some none, x)) (sym same),
            (
              missing,
              eval_batch_result-none (summary_files sys formats) path t.logfile_prefix
                  (other (info_of sys formats t)) n u v g,
            ),
          )
          | inr (ds, run, _, _) ↦ absurd (none-clash refl run)
        ]
  counted path t n w u v (some ds) l f g =
      elim (batch_command_base-AreRun sys (default_carrier sys formats) t.command_strings path
        t.uuid_test (some ds) w u l f) [
          | inl (_, none_run, _) ↦ absurd (none-clash none_run refl)
          | inr (cs, run, are, _) ↦ inl (
            ds,
            u,
            f,
            subst (AllRun path t) (some_unique run refl) are,
            elim (eval_batch_result-Failures (summary_files sys formats) path t.logfile_prefix
                (info_of sys formats t) (entries_of sys.float_text ds) n u v g) [
                  | inl missing ↦ inl missing
                  | inr (m, same, fails) ↦ inr (
                    m,
                    same,
                    subst (λ (rs : List ReturnValue). Failures rs m)
                        (codes_of-entries_of sys.float_text ds) fails,
                  )
                ],
          )
        ]

  batch_errors-result :
      (path : Word) (t : Test) (n : ℤ) (w v : World (Disk B))
      → Leads sys w.cwd
      → batch_errors sys formats path t w ≡ (some n, v)
      → BatchResult path t w n
  unfolding batch_errors
  batch_errors-result path t n w v l e =
      let (o, u, f, g) =
        bind_some
          (batch_command_base sys (default_carrier sys formats) t.command_strings path t.uuid_test)
          (λ o.
            eval_batch_result (summary_files sys formats) (some path) t.logfile_prefix
              (other (info_of sys formats t)) (entries_if sys formats o))
          e in
      counted path t n w u v o l f g

  clean :
      (path : Word) (t : Test) (w : World (Disk B)) (n : ℤ)
      → BatchResult path t w n
      → n ≡ pos 0
      → (ds : List (Carrier T)) × (u : World (Disk B)) × Returned path t w (some ds) u
        × AllRun path t ds
        × AllReturnZero ds
  clean path t w n (inl (ds, u, f, are, inr (m, same, fails))) h =
      (ds, u, f, are, Failures-All (return_values ds) m fails (ap magnitude (sym same ∙ h)))
  clean path t w n (inl (ds, u, f, are, inl (missing, c))) h =
      absurd (false≢true (ap is_zero (sym c ∙ h)))
  clean path t w n (inr (f, (missing, c))) h = absurd (false≢true (ap is_zero (sym c ∙ h)))

  -- If the path of the working directory leads to itself and `run_batch_commands` returns: it
  -- added a number to the errors of the test, and the shared list of results got the sum as its
  -- last entry. Either the folder is missing and the number is -1, or the batch returned a carrier
  -- for each command, in order, each with the return value of a process of its command that ended,
  -- and the number is that of the carriers that have another code than 0 or that a signal ended.
  -- The number is 0 only if the batch returned such carriers, and each has no return value or 0.
  pub run_batch_commands-errors :
      (root : Place) (t t2 : Test) (w v : Bench B)
      → Leads sys w.world.cwd
      → run_batch_commands sys formats root t w ≡ (some t2, v)
      → (n : ℤ) × (t2 ≡ add_errors sys formats t n)
        × (v.num_errors_a ≡ w.num_errors_a ++ result_of sys formats t2 ∷ [])
        × BatchResult (text_of (temporary root)) t w.world n
        × (n ≡ pos 0
            → (ds : List (Carrier T)) × (u : World (Disk B)) × Returned
                (text_of (temporary root))
                t
                w.world
                (some ds)
                u
              × AllRun (text_of (temporary root)) t ds
              × AllReturnZero ds)
  unfolding run_batch_commands
  run_batch_commands-errors root t t2 w v l e =
      let path = text_of (temporary root) in
      let (n, u, f, g) =
        bind_some (on_world (batch_errors sys formats path t))
          (λ n.
            modify (append_result sys formats (add_errors sys formats t n))
            >> return (add_errors sys formats t n))
          e in
      let (_, u2, f2, g2) =
        bind_some (modify (append_result sys formats (add_errors sys formats t n)))
          (λ _. return (add_errors sys formats t n)) g in
      let (same, world) = result_is g2 in
      let appended = (result_is f2).1 in
      let result =
        batch_errors-result path t n w.world u.world l
          (ap (λ (q : Option ℤ × Bench B). (q.0, q.1.world)) f) in
      (
        n,
        sym same,
        ap (λ (x : Bench B). x.num_errors_a) (sym world)
            ∙ ap (λ (x : Bench B). x.num_errors_a) (sym appended)
            ∙ ap₂ (λ (rs : List Result) (k : Test). rs ++ result_of sys formats k ∷ [])
                (ap (λ (q : Option ℤ × Bench B). q.1.num_errors_a) (sym f)) same,
        result,
        clean path t w.world n result,
      )
