-- ===== src/Wfp/Cover.antt =====
-- The files and the empty ranges of a flash cover it.
use org_muhkuh_tools_flasher.Common.{
  ℕ, suc, ◌+◌, ◌≤◌, ◌<◌, ◌≡◌, refl, sym, ◌∙◌, ap, Bool, true, false, ◌&&◌, none, some, List, [],
  ◌∷◌, ◌++◌, ltb, arith, length, ◌==◌, if◌then◌else◌, Bool-cases, inl, inr, none-ne-some,
  some-injective, subst,
}
use org_muhkuh_tools_flasher.Wfp.Sizes.{
  Range, in_order, last_end, gap, place_files, last_gap, is_okay, get_random_file_sizes,
}
use org_muhkuh_tools_flasher.Wfp.Placed.{bind_result}
use org_muhkuh_tools_flasher.Wfp.Runs.{
  between, holders, Chain, holders-append, Run, stop, behind, before, Placed, Run-Placed,
  Run-holders, place_files-Run,
}

module _ (file_number flash_size puffer max_size : ℕ) where
  IsPlaced-Chain :
      (idx lo : ℕ) (f : Range) (fs es : List Range) {current : ℕ}
      → Run file_number flash_size puffer max_size (suc idx) current fs es
      → in_order (f ∷ fs) ≡ true
      → Chain f.end_offset fs
  unfolding in_order
  IsPlaced-Chain idx lo f _ _ stop o = tt
  IsPlaced-Chain idx lo f _ _ (behind g {fs = fs} {es = es} p l r) o =
      (ground arith, omega arith, IsPlaced-Chain (suc idx) lo g fs es r (ground arith))
  IsPlaced-Chain idx lo f _ es (before g {fs = fs} p l r) o =
      (ground arith, omega arith, IsPlaced-Chain (suc idx) lo g fs es r (ground arith))

  abbrev pub is_not_empty : List Range → Bool
  is_not_empty [] = false
  is_not_empty (f ∷ fs) = true

  -- From the start to the end of the last file, and on to the end of the flash.
  to_the_end :
      (x n : ℕ) (fs es : List Range)
      → last_end 0 fs ≤ flash_size
      → x < flash_size
      → n + holders x es ≡ between 0 (last_end 0 fs) x
      → n + holders x (es ++ last_gap flash_size fs) ≡ 1
  unfolding last_gap last_end
  to_the_end x n fs es e lt h =
      let a = holders-append x es (last_gap flash_size fs) in
      let b : holders x (last_gap flash_size fs) ≡ between (last_end 0 fs) flash_size x =
        ground arith in
      let c : between 0 (last_end 0 fs) x + between (last_end 0 fs) flash_size x ≡ 1 =
        ground arith in
      omega arith

  first_twice :
      (x lo hi m n : ℕ)
      → lo ≤ 0
      → m + n ≡ 1
      → between lo hi x + m + n ≡ (if lo == 0 && true && ltb x hi then 2 else 1)
  first_twice x lo hi m n l one = ground (arith, one)

  Run-covers :
      (x : ℕ) (f : Range) (fs es : List Range)
      → Run file_number flash_size puffer max_size 0 0 (f ∷ fs) es
      → in_order (f ∷ fs) ≡ true
      → last_end 0 (f ∷ fs) ≤ flash_size
      → x < flash_size
      → holders x (f ∷ fs) + holders x (es ++ last_gap flash_size (f ∷ fs))
        ≡ (if f.offset == 0 && is_not_empty fs && ltb x f.end_offset then 2 else 1)
  unfolding last_end last_gap
  Run-covers x f fs _ (behind _ {es = es} p l r) o e lt =
      let c = IsPlaced-Chain 0 0 f fs es r o in
      let h =
        Run-holders file_number flash_size puffer max_size 0 0 x (f ∷ fs) (gap 0 f.offset ∷ es)
          (behind f p l r) (l, omega arith, c) in
      let one = to_the_end x (holders x (f ∷ fs)) (f ∷ fs) (gap 0 f.offset ∷ es) e lt h in
      ground (arith, one)
  Run-covers x f [] _ (before _ p l stop) o e lt =
      let h : holders x (f ∷ []) + 0 ≡ between 0 f.end_offset x = ground arith in
      let one = to_the_end x (holders x (f ∷ [])) (f ∷ []) [] e lt h in ground (arith, one)
  Run-covers x f (g ∷ fs) es (before _ p l r) o e lt =
      let c = IsPlaced-Chain 0 0 f (g ∷ fs) es r o in
      let h =
        Run-holders file_number flash_size puffer max_size 1 0 x (g ∷ fs) es r
          (omega arith, c.1, c.2) in
      let one = to_the_end x (holders x (g ∷ fs)) (g ∷ fs) es e lt h in
      first_twice x f.offset f.end_offset (holders x (g ∷ fs))
        (holders x (es ++ last_gap flash_size (f ∷ g ∷ fs))) l one

  pub is_okay-last_end :
      (fs : List Range) → is_okay flash_size fs ≡ true → last_end 0 fs ≤ flash_size
  unfolding is_okay
  is_okay-last_end fs k = ground arith

  -- The parts of a result.
  pub get_random_file_sizes-Run :
      (random : ℕ → ℕ) (fs es : List Range)
      → get_random_file_sizes random file_number flash_size puffer max_size ≡ some (fs, es)
      → (gaps : List Range) × Run file_number flash_size puffer max_size 0 0 fs gaps
        × (length fs ≡ file_number)
        × (es ≡ gaps ++ last_gap flash_size fs)
        × (is_okay flash_size fs ≡ true)
  unfolding get_random_file_sizes
  get_random_file_sizes-Run random fs es h = elim (Bool-cases (file_number == 0)) [
    | inl z ↦ absurd (none-ne-some (fs, es) (sym (rw z refl) ∙ h))
    | inr z ↦
        let ((fs', gaps), q, e) =
          bind_result (place_files random file_number flash_size puffer max_size file_number 0 0)
            (λ (r : List Range × List Range).
              if is_okay flash_size r.0 then some (r.0, r.1 ++ last_gap flash_size r.0) else none)
            (sym (rw z refl) ∙ h) in
        let (run, n) =
          place_files-Run file_number flash_size puffer max_size random file_number 0 0 fs' gaps
            q in
        elim (Bool-cases (is_okay flash_size fs')) [
          | inl k ↦
              let same =
                some-injective (fs', gaps ++ last_gap flash_size fs') (fs, es)
                  (sym (rw k refl) ∙ e) in
              let files = ap (λ (r : List Range × List Range). r.0) same in
              (
                gaps,
                subst (λ l. Run file_number flash_size puffer max_size 0 0 l gaps) files run,
                subst (λ l. length l ≡ file_number) files n,
                sym (ap (λ (r : List Range × List Range). r.1) same)
                    ∙ ap (λ l. gaps ++ last_gap flash_size l) files,
                subst (λ l. is_okay flash_size l ≡ true) files k,
              )
          | inr k ↦ absurd (none-ne-some (fs, es) (sym (rw k refl) ∙ e))
        ]
  ]

  -- If the files and the empty ranges of a flash are found and each file ends in front of the next
  -- one, every KiB of the flash lies in exactly one of them; but if the first file lies at offset
  -- 0 and another one follows, each KiB of the first file lies in two.
  pub get_random_file_sizes-covers :
      (random : ℕ → ℕ) (x : ℕ) (f : Range) (fs es : List Range)
      → get_random_file_sizes random file_number flash_size puffer max_size ≡ some (f ∷ fs, es)
      → in_order (f ∷ fs) ≡ true
      → x < flash_size
      → holders x (f ∷ fs) + holders x es
        ≡ (if f.offset == 0 && is_not_empty fs && ltb x f.end_offset then 2 else 1)
  get_random_file_sizes-covers random x f fs es h o lt =
      let (gaps, run, n, e, k) = get_random_file_sizes-Run random (f ∷ fs) es h in
      let below : last_end 0 (f ∷ fs) ≤ flash_size = is_okay-last_end (f ∷ fs) k in
      rw e (Run-covers x f fs gaps run o below lt)

  -- If the files are found, there are as many as asked for. Each is at a multiple of 4 KiB, has 1
  -- KiB at least and less than the largest size, starts at most 3 KiB in front of its part of the
  -- flash and ends inside of it; the last one ends inside the flash.
  pub get_random_file_sizes-Placed :
      (random : ℕ → ℕ) (fs es : List Range)
      → get_random_file_sizes random file_number flash_size puffer max_size ≡ some (fs, es)
      → (length fs ≡ file_number)
        × Placed file_number flash_size puffer max_size 0 fs
        × (last_end 0 fs ≤ flash_size)
  get_random_file_sizes-Placed random fs es h =
      let (gaps, run, n, e, k) = get_random_file_sizes-Run random fs es h in
      (n, Run-Placed file_number flash_size puffer max_size 0 0 fs gaps run, is_okay-last_end fs k)
