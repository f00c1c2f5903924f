-- ===== src/Wfp/Inputs.antt =====
-- The commands of a package and the inputs that they are given.
use org_muhkuh_tools_flasher.Common.{
  ℕ, zero, suc, ◌+◌, ◌≡◌, refl, ap, some, List, [], ◌∷◌, ◌++◌, map, length, arith, length-append,
}
use mathlib.Core.List.{map-append}
use org_muhkuh_tools_flasher.Common.Words.{Word, codes}
use org_muhkuh_tools_flasher.Wfp.Commands.{
  WfpCommand, Inputs, convert_wfp_entry, convert_wfp_commands,
}
use org_muhkuh_tools_flasher.Wfp.Package.{Data}
use org_muhkuh_tools_flasher.Wfp.Verify.{
  Paths, flasher_command, pack_command, package_command, verify_command, erase_command,
  wfp_flash_commands,
}

-- The input of the command that flashes the package; 0 is none.
abbrev pub flash_input : ℕ → Inputs
flash_input zero = []
flash_input (suc n) = (2, suc n) ∷ []

length-map : {A C : Type 0} (f : A → C) (xs : List A) → length (map f xs) ≡ length xs
length-map f [] = refl
length-map f (x ∷ xs) = ap suc (length-map f xs)

module _ (binary path : Word) where
  -- A command that is converted, with the inputs before and after it.
  abbrev Converts : ℕ → WfpCommand → Inputs → Inputs → Type 0
  Converts idx ele inputs next =
      (changed : WfpCommand) × (string : Word) × (convert_wfp_entry binary path idx ele inputs
        ≡ some (changed, string, next))

  flasher_command-Converts :
      (idx : ℕ) (ps : List Word) (inputs : Inputs) → Converts idx (flasher_command ps) inputs inputs
  unfolding convert_wfp_entry
  flasher_command-Converts idx ps inputs = (_, _, refl)

  pack_command-Converts :
      (idx : ℕ) (ps : List Word) (inputs : Inputs) → Converts idx (pack_command ps) inputs inputs
  unfolding convert_wfp_entry
  pack_command-Converts idx ps inputs = (_, _, refl)

  package_command-Converts :
      (n : ℕ) (ps : List Word) → Converts 2 (package_command n ps) [] (flash_input n)
  unfolding convert_wfp_entry
  package_command-Converts zero ps = (_, _, refl)
  package_command-Converts (suc n) ps = (_, _, refl)

  -- Commands that are converted one by one, with their number.
  abbrev ConvertAll : ℕ → List WfpCommand → Inputs → Inputs → Type 0
  ConvertAll idx structure inputs next =
      (changed : List WfpCommand) × (strings : List Word) × (convert_wfp_commands binary path idx
          structure inputs
        ≡ some (changed, strings, next))
      × (length strings ≡ length structure)

  ConvertAll-cons :
      (idx : ℕ) (ele : WfpCommand) (structure : List WfpCommand) (inputs middle next : Inputs)
      → Converts idx ele inputs middle
      → ConvertAll (suc idx) structure middle next
      → ConvertAll idx (ele ∷ structure) inputs next
  unfolding convert_wfp_commands
  ConvertAll-cons idx ele structure inputs middle next (changed, string, c) (rest, strings, d, n) =
      (changed ∷ rest, string ∷ strings, rw c (rw d refl), ap suc n)

  verifies-ConvertAll :
      (t : Paths) (idx : ℕ) (files : List Data) (inputs : Inputs)
      → ConvertAll idx (map (verify_command t) files) inputs inputs
  unfolding convert_wfp_commands verify_command
  verifies-ConvertAll t idx [] inputs = ([], [], refl, refl)
  verifies-ConvertAll t idx (f ∷ files) inputs =
      ConvertAll-cons idx (verify_command t f) (map (verify_command t) files) inputs inputs inputs
        (flasher_command-Converts idx _ inputs) (verifies-ConvertAll t (suc idx) files inputs)

  -- Whatever the files of a package are, its commands are converted, three and one for each file
  -- and each empty range; the number of the plug is the input of the third one, which flashes the
  -- package, and of no other, and 0 of none.
  pub wfp_flash_commands-inputs :
      (t : Paths) (files empty : List Data)
      → (changed : List WfpCommand) × (strings : List Word) × (convert_wfp_commands binary path 0
            (wfp_flash_commands t files empty)
            []
          ≡ some (changed, strings, flash_input t.plug_num))
        × (length strings ≡ 3 + length files + length empty)
  unfolding wfp_flash_commands erase_command
  wfp_flash_commands-inputs t files empty =
      let verifies : ConvertAll 3 (map (verify_command t) files ++ map (verify_command t) empty)
          (flash_input t.plug_num) (flash_input t.plug_num) =
        rw (← map-append (verify_command t) files empty)
          (verifies-ConvertAll t 3 (files ++ empty) (flash_input t.plug_num)) in
      let (changed, strings, c, n) =
        ConvertAll-cons 0 (erase_command t) _ [] [] (flash_input t.plug_num)
          (flasher_command-Converts 0 _ [])
          (ConvertAll-cons 1 (pack_command (codes "pack" ∷ t.wfp_xml_path ∷ t.wfp_zip_path ∷ [])) _
            [] [] (flash_input t.plug_num) (pack_command-Converts 1 _ [])
            (ConvertAll-cons 2 (package_command t.plug_num (codes "flash" ∷ t.wfp_zip_path ∷ [])) _
              [] (flash_input t.plug_num) (flash_input t.plug_num)
              (package_command-Converts t.plug_num _) verifies)) in
      let a = length-append (map (verify_command t) files) (map (verify_command t) empty) in
      let b = length-map (verify_command t) files in
      let d = length-map (verify_command t) empty in (changed, strings, c, omega arith)
