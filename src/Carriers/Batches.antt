-- ===== src/Carriers/Batches.antt =====
-- What a batch returns: one carrier for each command, in order, and the working directory as it was.
use org_muhkuh_tools_flasher.Common.{
  ℕ, suc, ◌++◌, ◌≡◌, refl, sym, ◌∙◌, ap, subst, Bool, true, false, Option, none, some, List, [],
  ◌∷◌, Bool-cases, Option-cases, ◌⊎◌, inl, inr, false≢true, none-ne-some,
}
use org_muhkuh_tools_flasher.Common.Io.{◌>>=◌, ◌>>◌, return, bind_some, result_is}
use org_muhkuh_tools_flasher.Common.Words.{Word, codes}
use org_muhkuh_tools_flasher.Common.Paths.{join}
use org_muhkuh_tools_flasher.Common.Decimals.{decimal}
use org_muhkuh_tools_flasher.Carriers.System.{World, CommandSystem}
use org_muhkuh_tools_flasher.Carriers.{
  Carrier, run_and_leave, log_path, numbered, entered, chdir, enter_folder, leave_folder, run_in,
  run_command_base, run_all, batch_command_base,
}
use org_muhkuh_tools_flasher.Carriers.Runs.{HasEnded, IsRun, execute-IsRun}

module _ {R T : Type 0} (sys : CommandSystem R T) where
  -- From everywhere the path leads to itself, if it can be entered.
  abbrev pub Leads : Word → Type 0
  Leads path =
      (here : Word) (r : R) (there : Word) → sys.chdir here path r ≡ some there → there ≡ path

  run_in-IsRun :
      (c d : Carrier T) (w v : World R)
      → run_in sys c w ≡ (some d, v)
      → IsRun sys c d × (v.cwd ≡ w.cwd)
  unfolding run_in
  run_in-IsRun c d w v e = (
    execute-IsRun sys w.cwd c d w.rest v.rest
        (ap (λ (q : Option (Carrier T) × World R). (q.0, q.1.rest)) e),
    ap (λ (q : Option (Carrier T) × World R). q.1.cwd) (sym e),
  )

  chdir-Leads :
      (path : Word) (w v : World R) → Leads path → chdir sys path w ≡ (some tt, v) → v.cwd ≡ path
  unfolding chdir entered
  chdir-Leads path w v l e = elim (Option-cases (sys.chdir w.cwd path w.rest)) [
    | inl n ↦ absurd (none-ne-some tt (sym (rw n refl) ∙ ap (λ (q : Option Unit × World R). q.0) e))
    | inr (there, s) ↦
        ap (λ (q : Option Unit × World R). q.1.cwd) (sym e) ∙ rw s (l w.cwd w.rest there s)
  ]

  leave_folder-cwd :
      (b : Bool) (old : Word) (w v : World R)
      → Leads old
      → (b ≡ false → w.cwd ≡ old)
      → leave_folder sys b old w ≡ (some tt, v)
      → v.cwd ≡ old
  unfolding leave_folder
  leave_folder-cwd false old w v l h e = ap (λ (u : World R). u.cwd) (sym (result_is e).1) ∙ h refl
  leave_folder-cwd true old w v l h e = chdir-Leads old w v l e

  enter_folder-cwd :
      (b : Bool) (cmd : Word) (w v : World R)
      → b ≡ false
      → enter_folder sys b cmd w ≡ (some tt, v)
      → v.cwd ≡ w.cwd
  unfolding enter_folder
  enter_folder-cwd false cmd w v h e = ap (λ (u : World R). u.cwd) (sym (result_is e).1)
  enter_folder-cwd true cmd w v h e = absurd (false≢true (sym h))

  pub run_command_base-IsRun :
      (c d : Carrier T) (w v : World R)
      → Leads w.cwd
      → run_command_base sys c w ≡ (some d, v)
      → IsRun sys c d × (v.cwd ≡ w.cwd)
  unfolding run_command_base run_in
  run_command_base-IsRun c d w v l e =
      let (_, w1, e1, f1) =
        bind_some (enter_folder sys c.change_dir_to_bin c.cmd) (λ _. run_and_leave sys w.cwd c) e in
      let (x, w2, e2, f2) =
        bind_some (run_in sys c) (λ done. leave_folder sys c.change_dir_to_bin w.cwd >> return done)
          f1 in
      let (_, w3, e3, f3) =
        bind_some (leave_folder sys c.change_dir_to_bin w.cwd) (λ _. return x) f2 in
      let (same, world) = result_is f3 in
      let (run, kept) = run_in-IsRun c x w1 w2 e2 in
      (
        subst (λ (k : Carrier T). IsRun sys c k) same run,
        ap (λ (u : World R). u.cwd) (sym world)
            ∙ leave_folder-cwd c.change_dir_to_bin w.cwd w2 w3 l
                (λ h. kept ∙ enter_folder-cwd c.change_dir_to_bin c.cmd w w1 h e1) e3,
      )

  -- The log file of a command: the folder, the prefix, the index and an ending.
  abbrev pub logs_at : Word → Word → ℕ → Word → Option Word
  logs_at path prefix idx ending =
      some (join path (prefix ++ (codes "_" ++ (decimal idx ++ ending))))

  -- A command of the batch, run under its index.
  abbrev pub IsRunAt : Carrier T → Word → Word → ℕ → Word → Carrier T → Type 0
  IsRunAt default path prefix idx cmd d =
      (d.id ≡ some idx)
      × (d.cmd ≡ cmd)
      × (d.executed ≡ true)
      × (d.path_stdout ≡ logs_at path prefix idx (codes "_stdout.txt"))
      × (d.path_stderr ≡ logs_at path prefix idx (codes "_stderr.txt"))
      × HasEnded sys default cmd d

  numbered-IsRunAt :
      (default d : Carrier T) (path prefix : Word) (idx : ℕ) (cmd : Word)
      → IsRun sys (numbered sys default path prefix idx cmd) d
      → IsRunAt default path prefix idx cmd d
  unfolding numbered log_path
  numbered-IsRunAt default d path prefix idx cmd run = run

  -- The carriers of a batch that begins with an index.
  abbrev pub AreRun : Carrier T → Word → Word → ℕ → List Word → List (Carrier T) → Type 0
  AreRun default path prefix idx [] [] = Unit
  AreRun default path prefix idx [] (d ∷ ds) = ⊥
  AreRun default path prefix idx (cmd ∷ cmds) [] = ⊥
  AreRun default path prefix idx (cmd ∷ cmds) (d ∷ ds) =
      IsRunAt default path prefix idx cmd d × AreRun default path prefix (suc idx) cmds ds

  pub run_all-AreRun :
      (default : Carrier T) (path prefix : Word) (idx : ℕ) (cmds : List Word)
      (ds : List (Carrier T)) (w v : World R)
      → Leads w.cwd
      → run_all sys default path prefix idx cmds w ≡ (some ds, v)
      → AreRun default path prefix idx cmds ds × (v.cwd ≡ w.cwd)
  unfolding run_all
  run_all-AreRun default path prefix idx [] ds w v l e =
      let (a, b) = result_is e in
      (subst (AreRun default path prefix idx []) a tt, ap (λ (u : World R). u.cwd) (sym b))
  run_all-AreRun default path prefix idx (cmd ∷ cmds) ds w v l e =
      let (x, w1, e1, f1) =
        bind_some (run_command_base sys (numbered sys default path prefix idx cmd))
          (λ carrier.
            run_all sys default path prefix (suc idx) cmds >>= λ result. return (carrier ∷ result))
          e in
      let (xs, w2, e2, f2) =
        bind_some (run_all sys default path prefix (suc idx) cmds) (λ result. return (x ∷ result))
          f1 in
      let (a, b) = result_is f2 in
      let (run, kept) =
        run_command_base-IsRun (numbered sys default path prefix idx cmd) x w w1 l e1 in
      let (runs, still) =
        run_all-AreRun default path prefix (suc idx) cmds xs w1 w2 (subst Leads (sym kept) l) e2 in
      (
        subst (AreRun default path prefix idx (cmd ∷ cmds)) a
            (numbered-IsRunAt default x path prefix idx cmd run, runs),
        ap (λ (u : World R). u.cwd) (sym b) ∙ still ∙ kept,
      )

  pub batch_command_base-AreRun :
      (default : Carrier T) (cmds : List Word) (path prefix : Word)
      (result : Option (List (Carrier T))) (w v : World R)
      → Leads w.cwd
      → batch_command_base sys default cmds path prefix w ≡ (some result, v)
      → ((sys.is_dir w.cwd path w.rest ≡ false) × (result ≡ none) × (w ≡ v))
        ⊎ ((ds : List (Carrier T)) × (result ≡ some ds)
            × AreRun default path prefix 0 cmds ds
            × (v.cwd ≡ w.cwd))
  unfolding batch_command_base
  batch_command_base-AreRun default cmds path prefix result w v l e =
      elim (Bool-cases (sys.is_dir w.cwd path w.rest)) [
        | inr d ↦ let (a, b) = result_is (sym (rw d refl) ∙ e) in inl (d, sym a, b)
        | inl d ↦
            let (ds, u, f, g) =
              bind_some (run_all sys default path prefix 0 cmds) (λ ds. return (some ds))
                (sym (rw d refl) ∙ e) in
            let (a, b) = result_is g in
            let (runs, kept) = run_all-AreRun default path prefix 0 cmds ds w u l f in
            inr (ds, sym a, runs, ap (λ (x : World R). x.cwd) (sym b) ∙ kept)
      ]
