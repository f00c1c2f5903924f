-- ===== src/Wfp/MultiTarget/OnBoard.antt =====
-- A package is only flashed if the board has each of its memories.
use org_muhkuh_tools_flasher.Common.{
  ℕ, ◌≡◌, refl, sym, ◌∙◌, ap, Bool, true, false, Option, none, some, List, [], ◌∷◌, ◌==◌, ◌⊎◌,
  arith, Bool-cases, Option-cases, false≢true, inl, inr, All,
}
use org_muhkuh_tools_flasher.Common.Words.{Word}
use org_muhkuh_tools_flasher.Wfp.Commands.{WfpCommand}
use org_muhkuh_tools_flasher.Wfp.Package.{Flash}
use org_muhkuh_tools_flasher.Wfp.MultiTarget.{
  FlashElement, FlashData, Target, flasher_bus_names, bus_of, get_target_data,
}
use org_muhkuh_tools_flasher.Wfp.MultiTarget.Targets.{
  IsLastTarget, get_target_data-IsLastTarget, number_buses-All,
}
use org_muhkuh_tools_flasher.Wfp.MultiTarget.Steps.{
  Prepared, prepared, raised, skipped, ◌>>=◌, or_raised, same_chip_select, is_memory, find_memory,
  flash_commands, target_commands, pre_test_step_target, prepare_target,
}

abbrev pub prepared_value : {A : Type 0} → Prepared A → A → A
prepared_value (prepared a) b = a
prepared_value raised b = b
prepared_value skipped b = b

abbrev is_prepared : {A : Type 0} → Prepared A → Bool
is_prepared (prepared a) = true
is_prepared raised = false
is_prepared skipped = false

-- The steps of a chain that is prepared.
bind-prepared :
    {A C : Type 0} (m : Prepared A) (f : A → Prepared C) {c : C}
    → (m >>= f) ≡ prepared c
    → (a : A) × (m ≡ prepared a) × (f a ≡ prepared c)
bind-prepared (prepared a) f e = (a, refl, e)
bind-prepared raised f e = absurd (false≢true (ap is_prepared e))
bind-prepared skipped f e = absurd (false≢true (ap is_prepared e))

or_raised-prepared : {A : Type 0} (o : Option A) {a : A} → or_raised o ≡ prepared a → o ≡ some a
or_raised-prepared none e = absurd (false≢true (ap is_prepared e))
or_raised-prepared (some b) {a = a} e = ap (λ q. some (prepared_value q a)) e

module _ (int : Word → Option ℕ) (int_16 : Word → Option ℕ) where
  -- A memory of the board is that of a command of the package.
  pub record IsMemoryOf (d : FlashData) (m : Flash) : Type 0 where
    pub same_bus : m.b ≡ d.bus_number
    pub same_unit : int d.command.unit ≡ some m.u
    pub same_select : int d.command.chip_select ≡ some m.cs

  abbrev OnBoard : FlashData → List Flash → Type 0
  OnBoard d [] = ⊥
  OnBoard d (m ∷ ms) = IsMemoryOf d m ⊎ OnBoard d ms

  -- The board has a memory with the bus, the unit and the chip select of the command.
  abbrev pub HasMemory : List Flash → FlashElement → Type 0
  HasMemory [] c = ⊥
  HasMemory (m ∷ ms) c =
      ((bus_of flasher_bus_names c.bus ≡ some m.b)
        × (int c.unit ≡ some m.u)
        × (int c.chip_select ≡ some m.cs))
      ⊎ HasMemory ms c

  OnBoard-HasMemory :
      (ms : List Flash) (d : FlashData)
      → bus_of flasher_bus_names d.command.bus ≡ some d.bus_number
      → OnBoard d ms
      → HasMemory ms d.command
  OnBoard-HasMemory (m ∷ ms) d e (inl is) =
      inl (e ∙ ap some (sym is.same_bus), is.same_unit, is.same_select)
  OnBoard-HasMemory (m ∷ ms) d e (inr on) = inr (OnBoard-HasMemory ms d e on)
  OnBoard-HasMemory [] d e on = absurd on

  is_memory-true :
      (d : FlashData) (m : Flash)
      → is_memory int int_16 d.bus_number d.command.unit d.command.chip_select m ≡ prepared true
      → IsMemoryOf d m
  unfolding is_memory same_chip_select
  is_memory-true d m h = elim (Bool-cases (m.b == d.bus_number)) [
    | inr e ↦
        absurd
          (false≢true (ap (λ q. prepared_value q true) {x = prepared false} (sym (rw e refl) ∙ h)))
    | inl e ↦
        let (u, p, g) =
          bind-prepared (or_raised (int d.command.unit))
            (λ u. elim (m.u == u) [
              | true ↦ same_chip_select int int_16 d.command.chip_select m
              | false ↦ prepared false
            ])
            (sym (rw e refl) ∙ h) in
        elim (Bool-cases (m.u == u)) [
          | inr k ↦ absurd (
              false≢true
                (ap (λ q. prepared_value q true) {x = prepared false} (sym (rw k refl) ∙ g)))
          | inl k ↦
              let (c, q, i) =
                bind-prepared (or_raised (int d.command.chip_select)) (λ c. prepared (m.cs == c))
                  (sym (rw k refl) ∙ g) in
              let z : (m.cs == c) ≡ true = ap (λ q. prepared_value q true) i in
              let same_u : u ≡ m.u = ground arith in
              let same_c : c ≡ m.cs = ground arith in
              record {
                same_bus = ground arith;
                same_unit = or_raised-prepared (int d.command.unit) p ∙ ap some same_u;
                same_select = or_raised-prepared (int d.command.chip_select) q ∙ ap some same_c;
              }
        ]
  ]

  find_memory-OnBoard :
      (d : FlashData) (ms : List Flash) (m : Flash)
      → find_memory int int_16 d.bus_number d.command.unit d.command.chip_select ms ≡ prepared m
      → OnBoard d ms
  unfolding find_memory
  find_memory-OnBoard d [] m h = absurd (false≢true (ap is_prepared h))
  find_memory-OnBoard d (n ∷ ms) m h =
      let (b, p, g) =
        bind-prepared (is_memory int int_16 d.bus_number d.command.unit d.command.chip_select n) _
          h in
      elim (Bool-cases b) [
        | inl e ↦ inl (is_memory-true d n (p ∙ ap prepared e))
        | inr e ↦ inr (find_memory-OnBoard d ms m (sym (rw e refl) ∙ g))
      ]

  module _ (realpath : Word → Word) (plugin_name dir_path zip_path : Word) (plug_num : ℕ)
      (memories : List Flash) where
    target_commands-OnBoard :
        (ds : List FlashData) (commands : List WfpCommand)
        → target_commands int int_16 realpath plugin_name dir_path zip_path plug_num memories ds
          ≡ prepared commands
        → All (λ d. OnBoard d memories) ds
    unfolding target_commands flash_commands
    target_commands-OnBoard [] commands h = tt
    target_commands-OnBoard (d ∷ ds) commands h =
        let (cs, p, g) =
          bind-prepared
            (flash_commands int int_16 realpath plugin_name dir_path zip_path plug_num memories d) _
            h in
        let (rest, q, _) =
          bind-prepared
            (target_commands int int_16 realpath plugin_name dir_path zip_path plug_num memories ds)
            _ g in
        let (m, f, _) =
          bind-prepared
            (find_memory int int_16 d.bus_number d.command.unit d.command.chip_select memories) _
            p in
        (find_memory-OnBoard d memories m f, target_commands-OnBoard ds rest q)

    -- If the commands of the test for several targets are prepared: the package has an element
    -- "Target" with the name of the chip, and for each command of the last such element the board
    -- has a memory with the number of its bus, its unit and its chip select.
    pub prepare_target-OnBoard :
        (chip_id : ℕ) (ts : List Target) (commands : List WfpCommand)
        → prepare_target int int_16 realpath plugin_name dir_path zip_path plug_num memories chip_id
            ts
          ≡ prepared commands
        → (t : Target) × IsLastTarget chip_id ts t × All (HasMemory memories) t.commands
    unfolding prepare_target pre_test_step_target
    prepare_target-OnBoard chip_id ts commands h =
        let (found, p, g) = bind-prepared (or_raised (get_target_data chip_id ts none)) _ h in
        elim (Option-cases found) [
          | inl n ↦ absurd (false≢true (ap is_prepared {x = raised} (sym (rw n refl) ∙ g)))
          | inr (ds, n) ↦
              let (t, last, number) =
                get_target_data-IsLastTarget chip_id ts ds
                  (or_raised-prepared (get_target_data chip_id ts none) p ∙ ap some n) in
              (
                t,
                last,
                number_buses-All (HasMemory memories) (λ d. OnBoard d memories) t.commands ds
                    (OnBoard-HasMemory memories) number
                    (target_commands-OnBoard ds commands (sym (rw n refl) ∙ g)),
              )
        ]
