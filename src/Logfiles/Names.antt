-- ===== src/Logfiles/Names.antt =====
-- The names of the archives: the two indexes can be read back from them.
use org_muhkuh_tools_flasher.Common.{ℕ, ◌≡◌, refl, sym, ◌∙◌, ap, [], ◌∷◌, ◌++◌, append_assoc}
use org_muhkuh_tools_flasher.Common.Decimals.{two_digits, two_digits-injective}
use org_muhkuh_tools_flasher.Common.Words.{Word}
use org_muhkuh_tools_flasher.Logfiles.{Call, uuid_or_generated, stamp, gen_name_logfiles_man}

abbrev rest_of : Word → Word
rest_of [] = []
rest_of (c ∷ w) = w

append_cancel : (u s t : Word) → u ++ s ≡ u ++ t → s ≡ t
append_cancel [] s t e = e
append_cancel (c ∷ u) s t e = append_cancel u s t (ap rest_of e)

pub gen_name-append :
    (call : Call) (major minor : ℕ) (t : Word)
    → gen_name_logfiles_man call major minor ++ t
      ≡ uuid_or_generated call.uuid call.stripped_uuid
        ++ (b'-' ∷ (two_digits major ++ (b'_' ∷ (two_digits minor ++ (stamp call ++ t)))))
unfolding gen_name_logfiles_man
gen_name-append call major minor t = simp append_assoc

-- Names of log files for one UUID that are equal, also with more text behind them, have the same
-- two indexes, whatever the time and the platform.
pub gen_name_logfiles_man-injective :
    (call other : Call) (i j m n : ℕ) (s t : Word)
    → uuid_or_generated call.uuid call.stripped_uuid
      ≡ uuid_or_generated other.uuid other.stripped_uuid
    → gen_name_logfiles_man call i m ++ s ≡ gen_name_logfiles_man other j n ++ t
    → (i ≡ j) × (m ≡ n)
gen_name_logfiles_man-injective call other i j m n s t u e =
    let first =
      two_digits-injective i j (b'_' ∷ (two_digits m ++ (stamp call ++ s)))
        (b'_' ∷ (two_digits n ++ (stamp other ++ t))) refl refl
        (ap rest_of (
          append_cancel (uuid_or_generated other.uuid other.stripped_uuid)
            (b'-' ∷ (two_digits i ++ (b'_' ∷ (two_digits m ++ (stamp call ++ s)))))
            (b'-' ∷ (two_digits j ++ (b'_' ∷ (two_digits n ++ (stamp other ++ t)))))
            (ap
                (λ (w : Word).
                  w ++ (b'-' ∷ (two_digits i ++ (b'_' ∷ (two_digits m ++ (stamp call ++ s))))))
                (sym u)
              ∙ sym (gen_name-append call i m s)
              ∙ e
              ∙ gen_name-append other j n t))) in
    let second =
      two_digits-injective m n (stamp call ++ s) (stamp other ++ t) refl refl
        (ap rest_of first.1) in
    (first.0, second.0)
