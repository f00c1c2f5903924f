-- ===== src/Wfp/Placed.antt =====
-- Where each random file lies.
use org_muhkuh_tools_flasher.Common.{
  ℕ, suc, ◌+◌, ◌-◌, ◌*◌, ◌/◌, ◌%◌, ◌≤◌, ◌<◌, ◌≡◌, refl, sym, subst, ◌∙◌, true, Option, none, some,
  ltb, arith, ◌>>=◌, Bool-cases, inl, inr, none-ne-some, some-injective,
}
use org_muhkuh_tools_flasher.Wfp.Sizes.{Range, randrange, share, max_file_size, random_file}

-- The steps of a chain that gave a result.
pub bind_result :
    {A B : Type 0} (m : Option A) (f : A → Option B) {b : B}
    → (m >>= f) ≡ some b
    → (a : A) × (m ≡ some a) × (f a ≡ some b)
bind_result none f {b = b} e = absurd (none-ne-some b e)
bind_result (some a) f e = (a, refl, e)

remainder_bound : (r q : ℕ) → 0 < q → r % q < q
remainder_bound r q h = grind arith

pub randrange-one :
    (start stop r n : ℕ) → randrange start stop 1 r ≡ some n → (start ≤ n) × (n < stop)
unfolding randrange
randrange-one start stop r n h = elim (Bool-cases (ltb start stop)) [
  | inl l ↦
      let e : start + 1 * (r % ((stop - start + 0) / 1)) ≡ n =
        some-injective _ n (sym (rw l refl) ∙ h) in
      let lt : start < stop = ground arith in
      let b : r % ((stop - start + 0) / 1) < (stop - start + 0) / 1 =
        remainder_bound r ((stop - start + 0) / 1) (omega arith) in
      omega arith
  | inr l ↦ absurd (none-ne-some n (sym (rw l refl) ∙ h))
]

pub randrange-four :
    (start stop r n : ℕ)
    → randrange start stop 4 r ≡ some n
    → (start ≤ n) × (n < stop) × ((k : ℕ) × (n ≡ start + 4 * k))
unfolding randrange
randrange-four start stop r n h = elim (Bool-cases (ltb start stop)) [
  | inl l ↦
      let e : start + 4 * (r % ((stop - start + 3) / 4)) ≡ n =
        some-injective _ n (sym (rw l refl) ∙ h) in
      let lt : start < stop = ground arith in
      let b : r % ((stop - start + 3) / 4) < (stop - start + 3) / 4 =
        remainder_bound r ((stop - start + 3) / 4) (omega arith) in
      (omega arith, omega arith, (r % ((stop - start + 3) / 4), sym e))
  | inr l ↦ absurd (none-ne-some n (sym (rw l refl) ∙ h))
]

pub randrange-lt :
    (start stop step r : ℕ) → start < stop → (n : ℕ) × (randrange start stop step r ≡ some n)
unfolding randrange
randrange-lt start stop step r h =
    let l : ltb start stop ≡ true = ground arith in
    (start + step * (r % ((stop - start + (step - 1)) / step)), rw l refl)

module _ (file_number flash_size puffer max_size : ℕ) where
  -- What `random_file` promises of a file.
  pub record IsPlaced (idx : ℕ) (f : Range) : Type 0 where
    pub aligned : f.offset % 4 ≡ 0
    pub ends : f.end_offset ≡ f.offset + f.size
    pub filled : 1 ≤ f.size
    pub small : f.size < max_file_size file_number flash_size puffer max_size
    pub from : share file_number flash_size idx ≤ f.offset + 3
    pub within : f.end_offset < share file_number flash_size (suc idx)

  pub random_file-IsPlaced :
      (random : ℕ → ℕ) (idx : ℕ) (f : Range)
      → random_file random file_number flash_size puffer max_size idx ≡ some f
      → IsPlaced idx f
  unfolding random_file
  random_file-IsPlaced random idx f h =
      let (size, s, g) =
        bind_result
          (randrange 1 (max_file_size file_number flash_size puffer max_size) 1 (random (2 * idx)))
          _ h in
      let (offset, o, e) =
        bind_result
          (randrange (share file_number flash_size idx / 4 * 4)
            (share file_number flash_size (suc idx) - size) 4 (random (2 * idx + 1)))
          _ g in
      let (s1, s2) =
        randrange-one 1 (max_file_size file_number flash_size puffer max_size) (random (2 * idx))
          size s in
      let (o1, o2, (k, o3)) =
        randrange-four (share file_number flash_size idx / 4 * 4)
          (share file_number flash_size (suc idx) - size) (random (2 * idx + 1)) offset o in
      let same : record { offset = offset; end_offset = offset + size; size = size } ≡ f =
        some-injective _ f e in
      subst (IsPlaced idx) same (record {
        aligned = omega arith;
        ends = refl;
        filled = s1;
        small = s2;
        from = omega arith;
        within = omega arith;
      })
