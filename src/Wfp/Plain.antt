-- ===== src/Wfp/Plain.antt =====
-- Without packages the conversion is that of Flashertest.
use org_muhkuh_tools_flasher.Common.{
  ℕ, suc, ◌≡◌, refl, false, Option, none, some, List, [], ◌∷◌, map, Bool-cases, Option-cases, inl,
  inr,
}
use org_muhkuh_tools_flasher.Common.Words.{Word, codes, eq_word}
use org_muhkuh_tools_flasher.Dyntest.Commands.{
  Command, value_at, in_folder, select_program, convert_entry,
  convert_final_command_entries_to_commands,
}
use org_muhkuh_tools_flasher.Wfp.Commands.{
  Setting, text, WfpCommand, Inputs, Selected, setting_at, text_of, select_wfp, convert_wfp_entry,
  convert_wfp_commands,
}

-- The programs of Flashertest, as programs of the packages.
abbrev pub settings : List (Word × Word) → List (Word × Setting)
settings [] = []
settings ((key, v) ∷ rest) = (key, text v) ∷ settings rest

abbrev pub plain : Command → WfpCommand
plain ele = record { programs = settings ele.programs; parameters = ele.parameters }

-- No program is a package.
abbrev pub NoPackage : List (Word × Word) → Type 0
NoPackage [] = Unit
NoPackage ((key, v) ∷ rest) = (eq_word key (codes "wfp") ≡ false) × NoPackage rest

abbrev pub IsPlain : List Command → Type 0
IsPlain [] = Unit
IsPlain (ele ∷ structure) = NoPackage ele.programs × IsPlain structure

setting_at-settings :
    (key : Word) (ps : List (Word × Word))
    → text_of (setting_at key (settings ps)) ≡ value_at key ps
unfolding value_at
setting_at-settings key [] = refl
setting_at-settings key ((k, v) ∷ rest) = elim (Bool-cases (eq_word k key)) [
  | inl e ↦ rw e refl
  | inr e ↦ rw e (setting_at-settings key rest)
]

-- The result of the base loop, with the inputs so far.
abbrev with_inputs : Inputs → Option (Option Word × List Word) → Option Selected
with_inputs inputs none = none
with_inputs inputs (some (command, parameters)) =
    some (record { command = command; parameters = parameters; inputs = inputs })

module _ (binary path : Word) where
  select_wfp-plain :
      (idx : ℕ) (all ps : List (Word × Word)) (command : Option Word) (parameters : List Word)
      (inputs : Inputs)
      → NoPackage ps
      → select_wfp binary path idx
          (settings all)
          (settings ps)
          (record { command = command; parameters = parameters; inputs = inputs })
        ≡ with_inputs inputs (select_program binary path all ps command parameters)
  unfolding select_wfp select_program
  select_wfp-plain idx all [] command parameters inputs p = refl
  select_wfp-plain idx all ((key, v) ∷ rest) command parameters inputs (w, p) =
      elim (Bool-cases (eq_word key (codes "flasher"))) [
        | inl e ↦ rw e (elim (Option-cases (in_folder path parameters)) [
          | inl n ↦ rw n refl
          | inr (changed, n) ↦ rw n (select_wfp-plain idx all rest (some binary) changed inputs p)
        ])
        | inr e ↦ rw e (elim (Bool-cases (eq_word key (codes "openocd"))) [
          | inl o ↦ rw o (
              rw (setting_at-settings (codes "bin_path") all)
                (elim (Option-cases (value_at (codes "bin_path") all)) [
                  | inl n ↦ rw n refl
                  | inr (program, n) ↦
                      rw n (select_wfp-plain idx all rest (some program) parameters inputs p)
                ]))
          | inr o ↦ rw o (elim (Bool-cases (eq_word key (codes "bin_path"))) [
            | inl b ↦ rw b (select_wfp-plain idx all rest command parameters inputs p)
            | inr b ↦ rw b (rw w (select_wfp-plain idx all rest command parameters inputs p))
          ])
        ])
      ]

  -- The result of the base class, with the inputs.
  abbrev pub with_entry : Inputs → Option (Command × Word) → Option (WfpCommand × Word × Inputs)
  with_entry inputs none = none
  with_entry inputs (some (ele, string)) = some (plain ele, string, inputs)

  abbrev pub with_commands :
      Inputs → Option (List Command × List Word) → Option (List WfpCommand × List Word × Inputs)
  with_commands inputs none = none
  with_commands inputs (some (structure, strings)) = some (map plain structure, strings, inputs)

  convert_wfp_entry-plain :
      (idx : ℕ) (ele : Command) (inputs : Inputs)
      → NoPackage ele.programs
      → convert_wfp_entry binary path idx (plain ele) inputs
        ≡ with_entry inputs (convert_entry binary path ele)
  unfolding convert_wfp_entry convert_entry
  convert_wfp_entry-plain idx ele inputs p =
      rw (select_wfp-plain idx ele.programs ele.programs none ele.parameters inputs p)
        (elim (Option-cases
          (select_program binary path ele.programs ele.programs none ele.parameters)) [
            | inl n ↦ rw n refl
            | inr ((none, parameters), n) ↦ rw n refl
            | inr ((some program, parameters), n) ↦ rw n refl
          ])

  -- For commands without a package, the conversion of the package tests gives the commands of that
  -- of Flashertest, raises in the same cases, and leaves the inputs as they are.
  pub convert_wfp_commands-plain :
      (idx : ℕ) (structure : List Command) (inputs : Inputs)
      → IsPlain structure
      → convert_wfp_commands binary path idx (map plain structure) inputs
        ≡ with_commands inputs (convert_final_command_entries_to_commands binary path structure)
  unfolding convert_wfp_commands convert_final_command_entries_to_commands
  convert_wfp_commands-plain idx [] inputs p = refl
  convert_wfp_commands-plain idx (ele ∷ structure) inputs (p, ps) =
      rw (convert_wfp_entry-plain idx ele inputs p)
        (elim (Option-cases (convert_entry binary path ele)) [
          | inl n ↦ rw n refl
          | inr ((changed, string), n) ↦ rw n (
              rw (convert_wfp_commands-plain (suc idx) structure inputs ps)
                (elim (Option-cases
                  (convert_final_command_entries_to_commands binary path structure)) [
                    | inl k ↦ rw k refl
                    | inr ((rest, strings), k) ↦ rw k refl
                  ]))
        ])
