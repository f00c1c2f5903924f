-- ===== src/Wfp/MultiTarget/Targets.antt =====
-- Which target of a package is read, and the buses of its commands.
use org_muhkuh_tools_flasher.Common.{
  ℕ, ◌≡◌, refl, sym, ◌∙◌, ap, subst, Option, none, some, List, [], ◌∷◌, ◌++◌, ◌⊎◌, Bool-cases,
  false≢true, inl, inr, All, some_unique, if◌then◌else◌, ◌>>=◌, some-injective, none-ne-some,
}
use org_muhkuh_tools_flasher.Common.Words.{Word, codes, eq_word, eq_word-eq, eq_word_refl}
use org_muhkuh_tools_flasher.Wfp.Placed.{bind_result}
use org_muhkuh_tools_flasher.Wfp.Package.{name_of, chip_types}
use org_muhkuh_tools_flasher.Wfp.MultiTarget.{
  FlashElement, FlashData, Target, flasher_bus_names, bus_of, number_buses, numbered,
  get_target_data,
}

-- An element of the package that is a target of the chip.
abbrev pub IsTargetOf : ℕ → Target → Type 0
IsTargetOf chip_id t = (t.tag ≡ codes "Target") × (name_of chip_types chip_id ≡ some t.netx)

-- The last target of the chip.
abbrev pub IsLastTarget : ℕ → List Target → Target → Type 0
IsLastTarget chip_id ts t =
    (before : List Target) × (after : List Target) × (ts ≡ before ++ t ∷ after)
    × IsTargetOf chip_id t
    × All (λ s. ¬ IsTargetOf chip_id s) after

-- The data so far is kept if no target of the chip follows.
abbrev IsRead : ℕ → List Target → Option (List FlashData) → List FlashData → Type 0
IsRead chip_id ts found ds =
    ((t : Target) × IsLastTarget chip_id ts t × (number_buses t.commands ≡ some ds))
    ⊎ ((found ≡ some ds) × All (λ s. ¬ IsTargetOf chip_id s) ts)

numbered-some :
    (cs : List FlashElement) (found : Option (List FlashData))
    → numbered cs ≡ some found
    → (ds : List FlashData) × (number_buses cs ≡ some ds) × (found ≡ some ds)
unfolding numbered
numbered-some cs found h =
    let (ds, e, f) = bind_result (number_buses cs) (λ ds. some (some ds)) h in
    (ds, e, sym (some-injective (some ds) found f))

IsRead-other :
    (chip_id : ℕ) (t : Target) (ts : List Target) (found : Option (List FlashData))
    (ds : List FlashData)
    → ¬ IsTargetOf chip_id t
    → IsRead chip_id ts found ds
    → IsRead chip_id (t ∷ ts) found ds
IsRead-other chip_id t ts found ds n (inl (s, (before, after, e, is, others), number)) =
    inl (s, (t ∷ before, after, ap (t ∷◌) e, is, others), number)
IsRead-other chip_id t ts found ds n (inr (e, others)) = inr (e, (n, others))

IsRead-target :
    (chip_id : ℕ) (t : Target) (ts : List Target) (found changed : Option (List FlashData))
    (ds : List FlashData)
    → IsTargetOf chip_id t
    → numbered t.commands ≡ some changed
    → IsRead chip_id ts changed ds
    → IsRead chip_id (t ∷ ts) found ds
IsRead-target chip_id t ts found changed ds is h
      (inl (s, (before, after, e, other, others), number)) =
    inl (s, (t ∷ before, after, ap (t ∷◌) e, other, others), number)
IsRead-target chip_id t ts found changed ds is h (inr (e, others)) =
    let (cs, number, same) = numbered-some t.commands changed h in
    inl (t, ([], ts, refl, is, others), number ∙ sym same ∙ e)

get_target_data-IsRead :
    (chip_id : ℕ) (ts : List Target) (found : Option (List FlashData)) (ds : List FlashData)
    → get_target_data chip_id ts found ≡ some (some ds)
    → IsRead chip_id ts found ds
unfolding get_target_data
get_target_data-IsRead chip_id [] found ds h = inr (some-injective found (some ds) h, tt)
get_target_data-IsRead chip_id (t ∷ ts) found ds h =
    elim (Bool-cases (eq_word t.tag (codes "Target"))) [
      | inr b ↦
          IsRead-other chip_id t ts found ds
            (λ (tag, _). false≢true (
              sym b
              ∙ ap (λ (w : Word). eq_word w (codes "Target")) tag
              ∙ eq_word_refl (codes "Target")))
            (get_target_data-IsRead chip_id ts found ds (sym (rw b refl) ∙ h))
      | inl b ↦
          let (netx, e, f) =
            bind_result (name_of chip_types chip_id) (λ netx. changing netx >>= continued)
              (sym (rw b refl) ∙ h) in
          let (changed, g, k) = bind_result (changing netx) continued f in
          let read = get_target_data-IsRead chip_id ts changed ds k in
          elim (Bool-cases (eq_word t.netx netx)) [
            | inl c ↦
                IsRead-target chip_id t ts found changed ds
                  (
                    eq_word-eq t.tag (codes "Target") b,
                    e ∙ ap some (sym (eq_word-eq t.netx netx c)),
                  )
                  (sym (rw c refl) ∙ g) read
            | inr c ↦
                IsRead-other chip_id t ts found ds
                  (λ (_, name). false≢true (
                    sym c
                    ∙ ap (λ (w : Word). eq_word t.netx w) (some_unique e name)
                    ∙ eq_word_refl t.netx))
                  (subst (λ o. IsRead chip_id ts o ds)
                    (sym (some-injective found changed (sym (rw c refl) ∙ g))) read)
          ]
    ]
  where
    changing : Word → Option (Option (List FlashData))
    changing netx = if eq_word t.netx netx then numbered t.commands else some found

    continued : Option (List FlashData) → Option (Option (List FlashData))
    continued changed = get_target_data chip_id ts changed

-- Without data to begin with, the data is that of the last target of the chip.
pub get_target_data-IsLastTarget :
    (chip_id : ℕ) (ts : List Target) (ds : List FlashData)
    → get_target_data chip_id ts none ≡ some (some ds)
    → (t : Target) × IsLastTarget chip_id ts t × (number_buses t.commands ≡ some ds)
get_target_data-IsLastTarget chip_id ts ds h = elim (get_target_data-IsRead chip_id ts none ds h) [
  | inl read ↦ read
  | inr (e, others) ↦ absurd (none-ne-some ds e)
]

-- What holds of each command with the number of its bus.
pub number_buses-All :
    (P : FlashElement → Type 0) (Q : FlashData → Type 0) (cs : List FlashElement)
    (ds : List FlashData)
    → ((d : FlashData)
        → bus_of flasher_bus_names d.command.bus ≡ some d.bus_number
        → Q d
        → P d.command)
    → number_buses cs ≡ some ds
    → All Q ds
    → All P cs
unfolding number_buses
number_buses-All P Q [] ds k h all = tt
number_buses-All P Q (c ∷ cs) ds k h all =
    let (n, e, f) =
      bind_result (bus_of flasher_bus_names c.bus)
        (λ n. number_buses cs >>= λ rest. some (record { bus_number = n; command = c } ∷ rest)) h in
    let (rest, g, i) =
      bind_result (number_buses cs) (λ rest. some (record { bus_number = n; command = c } ∷ rest))
        f in
    let (q, qs) =
      subst (All Q) (sym (some-injective (record { bus_number = n; command = c } ∷ rest) ds i))
        all in
    (k (record { bus_number = n; command = c }) e q, number_buses-All P Q cs rest k g qs)
