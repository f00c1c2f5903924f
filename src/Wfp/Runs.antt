-- ===== src/Wfp/Runs.antt =====
-- The runs of the loop of `get_random_file_sizes`, and what they leave empty.
use org_muhkuh_tools_flasher.Common.{
  ℕ, zero, suc, ◌+◌, ◌≤◌, ◌<◌, ◌≡◌, refl, ap, ◌&&◌, some, List, [], ◌∷◌, ◌++◌, ltb, leb, arith,
  length, if◌then◌else◌, Bool-cases, inl, inr, some-injective, subst,
}
use org_muhkuh_tools_flasher.Wfp.Sizes.{Range, last_end, gap, random_file, place_files}
use org_muhkuh_tools_flasher.Wfp.Placed.{IsPlaced, random_file-IsPlaced, bind_result}

-- 1 from an offset up to another.
abbrev pub between : ℕ → ℕ → ℕ → ℕ
between lo hi x = if leb lo x && ltb x hi then 1 else 0

abbrev pub holds : ℕ → Range → ℕ
holds x f = between f.offset f.end_offset x

-- The number of ranges with an offset.
abbrev pub holders : ℕ → List Range → ℕ
holders x [] = 0
holders x (f ∷ fs) = holds x f + holders x fs

-- Ranges that follow each other, with a gap in front of each.
abbrev pub Chain : ℕ → List Range → Type 0
Chain lo [] = Unit
Chain lo (f ∷ fs) = (lo < f.offset) × (f.offset ≤ f.end_offset) × Chain f.end_offset fs

pub between_join :
    (lo m n hi x : ℕ)
    → lo ≤ m
    → m ≤ n
    → n ≤ hi
    → between m n x + (between lo m x + between n hi x) ≡ between lo hi x
between_join lo m n hi x a b c = ground arith

pub Chain-last : (lo : ℕ) (fs : List Range) → Chain lo fs → lo ≤ last_end lo fs
unfolding last_end
Chain-last lo [] c = omega arith
Chain-last lo (f ∷ fs) (a, b, c) = let l = Chain-last f.end_offset fs c in omega arith

pub holders-append :
    (x : ℕ) (fs es : List Range) → holders x (fs ++ es) ≡ holders x fs + holders x es
holders-append x [] es = omega arith
holders-append x (f ∷ fs) es = let h = holders-append x fs es in omega arith

module _ (file_number flash_size puffer max_size : ℕ) where
  -- The runs of the loop.
  pub data Run : ℕ → ℕ → List Range → List Range → Type 0 where
    stop : {idx current : ℕ} → Run idx current [] []
    behind :
        {idx current : ℕ} (f : Range) {fs es : List Range}
        → IsPlaced file_number flash_size puffer max_size idx f
        → current < f.offset
        → Run (suc idx) f.end_offset fs es
        → Run idx current (f ∷ fs) (gap current f.offset ∷ es)
    before :
        {idx current : ℕ} (f : Range) {fs es : List Range}
        → IsPlaced file_number flash_size puffer max_size idx f
        → f.offset ≤ current
        → Run (suc idx) current fs es
        → Run idx current (f ∷ fs) es

  round :
      (idx current : ℕ) (f : Range) (fs es : List Range)
      → IsPlaced file_number flash_size puffer max_size idx f
      → Run (suc idx) (if ltb current f.offset then f.end_offset else current) fs es
      → Run idx current (f ∷ fs) (if ltb current f.offset then gap current f.offset ∷ es else es)
  round idx current f fs es p r = elim (Bool-cases (ltb current f.offset)) [
    | inl l ↦
        let r' : Run (suc idx) f.end_offset fs es = rw l at r in rw l (behind f p (ground arith) r')
    | inr l ↦
        let r' : Run (suc idx) current fs es = rw l at r in rw l (before f p (ground arith) r')
  ]

  -- Each file is placed by its index.
  abbrev pub Placed : ℕ → List Range → Type 0
  Placed idx [] = Unit
  Placed idx (f ∷ fs) = IsPlaced file_number flash_size puffer max_size idx f × Placed (suc idx) fs

  pub Run-Placed : (idx current : ℕ) (fs es : List Range) → Run idx current fs es → Placed idx fs
  Run-Placed idx current _ _ stop = tt
  Run-Placed idx current _ _ (behind f {fs = fs} {es = es} p l r) =
      (p, Run-Placed (suc idx) f.end_offset fs es r)
  Run-Placed idx current _ es (before f {fs = fs} p l r) = (p, Run-Placed (suc idx) current fs es r)

  -- Over files that follow each other, the loop leaves no gap out.
  pub Run-holders :
      (idx current x : ℕ) (fs es : List Range)
      → Run idx current fs es
      → Chain current fs
      → holders x fs + holders x es ≡ between current (last_end current fs) x
  unfolding last_end
  Run-holders idx current x _ _ stop c = ground arith
  Run-holders idx current x _ _ (behind f {fs = fs} {es = es} p l r) (a, b, c) =
      let i = Run-holders (suc idx) f.end_offset x fs es r c in
      let j =
        between_join current f.offset f.end_offset (last_end f.end_offset fs) x (omega arith) b
          (Chain-last f.end_offset fs c) in
      omega arith
  Run-holders idx current x _ _ (before f p l r) (a, b, c) = absurd (omega arith)

  pub place_files-Run :
      (random : ℕ → ℕ) (rounds idx current : ℕ) (fs es : List Range)
      → place_files random file_number flash_size puffer max_size rounds idx current ≡ some (fs, es)
      → Run idx current fs es × (length fs ≡ rounds)
  unfolding place_files
  place_files-Run random zero idx current fs es h =
      let same = some-injective ([], []) (fs, es) h in
      subst (λ (q : List Range × List Range). Run idx current q.0 q.1 × (length q.0 ≡ 0)) same
        (stop, refl)
  place_files-Run random (suc rounds) idx current fs es h =
      let (f, p, g) =
        bind_result (random_file random file_number flash_size puffer max_size idx) _ h in
      let ((fs', es'), q, e) =
        bind_result
          (place_files random file_number flash_size puffer max_size rounds (suc idx)
            (if ltb current f.offset then f.end_offset else current))
          _ g in
      let (run, n) =
        place_files-Run random rounds (suc idx)
          (if ltb current f.offset then f.end_offset else current) fs' es' q in
      let placed = random_file-IsPlaced file_number flash_size puffer max_size random idx f p in
      let same =
        some-injective (f ∷ fs', if ltb current f.offset then gap current f.offset ∷ es' else es')
          (fs, es) e in
      subst (λ (q : List Range × List Range). Run idx current q.0 q.1 × (length q.0 ≡ suc rounds))
        same (round idx current f fs' es' placed run, ap suc n)
