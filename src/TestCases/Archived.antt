-- ===== src/TestCases/Archived.antt =====
-- The test data is kept beside the log files.
use org_muhkuh_tools_flasher.Common.{
  ℕ, ◌*◌, ◌≤◌, ◌≡◌, refl, sym, ◌∙◌, ap, false, Option, none, some, ◌∷◌, ltb, if_cases, arith,
  Bool-cases, inl, inr, none-ne-some, some-injective,
}
use org_muhkuh_tools_flasher.Common.Io.{raise, from_option, bind_some, result_is, raise-return}
use org_muhkuh_tools_flasher.Common.Words.{Word, codes}
use org_muhkuh_tools_flasher.Files.{
  Place, dirname, eq_place, Node, directory, file, Disk, lookup, is_dir, attempt, remove, write,
  set,
}
use org_muhkuh_tools_flasher.Files.Laws.{lookup-set, lookup-set_self}
use org_muhkuh_tools_flasher.Logfiles.{temporary, working}
use org_muhkuh_tools_flasher.Dyntest.{Size, bytes, text, Test}
use org_muhkuh_tools_flasher.TestCases.Data.{
  write_limited, generate_randome_file, contents, copy_to, file_name, pre_test_step,
}

module _ {B : Type 0} where
  -- A write that succeeds.
  write_some :
      (p : Place) (b : B) (d e : Disk B) → write p b d ≡ (some tt, e) → e ≡ set p (file b) d
  unfolding write
  write_some p b d e =
      if_cases done (is_dir p d) (λ _ h. absurd (raise-return h))
        (λ _.
          if_cases done (is_dir (dirname p) d)
            (λ _.
              if_cases done (d.refuses p) (λ _ h. absurd (raise-return h))
                (λ _ h. sym (result_is h).1))
            (λ _ h. absurd (raise-return h)))
    where
      done : Option (Unit {0}) × Disk B → Type 0
      done q = q ≡ (some tt, e) → e ≡ set p (file b) d

module _ {B : Type 0} (urandom : ℕ → B) where
  limited :
      (place : Place) (n : ℕ) (d e : Disk B)
      → write_limited urandom place n d ≡ (some tt, e)
      → (n ≤ 1024 * 1024 * 200) × (write place (urandom n) d ≡ (some tt, e))
  unfolding write_limited
  limited place n d e h = elim (Bool-cases (ltb (1024 * 1024 * 200) n)) [
    | inl l ↦ absurd (raise-return {w = d} {v = e} (sym (rw l refl) ∙ h))
    | inr l ↦ (ground arith, sym (rw l refl) ∙ h)
  ]

  written :
      (place : Place) (size : Size) (d e : Disk B)
      → generate_randome_file urandom place size d ≡ (some tt, e)
      → (n : ℕ) × (size ≡ bytes n)
        × (n ≤ 1024 * 1024 * 200)
        × (lookup e.nodes place ≡ some (file (urandom n)))
  unfolding generate_randome_file
  written place (text w) d e h =
      let (_, u, f, g) = bind_some (attempt (remove place)) (λ _. raise) {w = d} {v = e} h in
      absurd (raise-return g)
  written place (bytes n) d e h =
      let (_, u, _, g) =
        bind_some (attempt (remove place)) (λ _. write_limited urandom place n) {w = d} {v = e} h in
      let (l, f) = limited place n u e g in
      (
        n,
        refl,
        l,
        ap (λ (x : Disk B). lookup x.nodes place) (write_some place (urandom n) u e f)
            ∙ lookup-set_self place (file (urandom n)) u,
      )

  contents-some : (o : Option (Node B)) (b : B) → contents urandom o ≡ some b → o ≡ some (file b)
  unfolding contents
  contents-some none b h = absurd (none-ne-some b h)
  contents-some (some directory) b h = absurd (none-ne-some b h)
  contents-some (some (file c)) b h = ap (λ (x : B). some (file x)) (some-injective c b h)

  copied :
      (name : Word) (folder target : Place) (d e : Disk B)
      → eq_place (name ∷ target) (name ∷ folder) ≡ false
      → copy_to urandom name folder target d ≡ (some tt, e)
      → (b : B) × (lookup d.nodes (name ∷ folder) ≡ some (file b))
        × (lookup e.nodes (name ∷ folder) ≡ some (file b))
        × (lookup e.nodes (name ∷ target) ≡ some (file b))
  unfolding copy_to
  copied name folder target d e o h =
      let (b, u, f, g) =
        bind_some (from_option (contents urandom (lookup d.nodes (name ∷ folder))))
          (write (name ∷ target)) h in
      let found =
        contents-some (lookup d.nodes (name ∷ folder)) b (ap (λ (q : Option B × Disk B). q.0) f) in
      let same : d ≡ u = ap (λ (q : Option B × Disk B). q.1) f in
      let left = write_some (name ∷ target) b u e g in
      (
        b,
        found,
        ap (λ (x : Disk B). lookup x.nodes (name ∷ folder)) left
            ∙ lookup-set (name ∷ target) (name ∷ folder) (file b) u o
            ∙ ap (λ (x : Disk B). lookup x.nodes (name ∷ folder)) (sym same)
            ∙ found,
        ap (λ (x : Disk B). lookup x.nodes (name ∷ target)) left
            ∙ lookup-set_self (name ∷ target) (file b) u,
      )

  -- If the step before a test returns, its size is a number of at most 200 MiB, and the random
  -- data of that size stands both in the folder of the work files and in that of the log files,
  -- under the name of the test.
  pub pre_test_step-copies :
      (root : Place) (t : Test) (size : Size) (d e : Disk B)
      → pre_test_step urandom root t size d ≡ (some tt, e)
      → (n : ℕ) × (size ≡ bytes n)
        × (n ≤ 1024 * 1024 * 200)
        × (lookup e.nodes (file_name urandom t (codes "_writefile_to_netx.bin") ∷ working root)
            ≡ some (file (urandom n)))
        × (lookup e.nodes (file_name urandom t (codes "_writefile_to_netx.bin") ∷ temporary root)
            ≡ some (file (urandom n)))
  unfolding pre_test_step
  pre_test_step-copies root t size d e h =
      let name = file_name urandom t (codes "_writefile_to_netx.bin") in
      let (_, u, f, g) =
        bind_some (generate_randome_file urandom (name ∷ working root) size)
          (λ _. copy_to urandom name (working root) (temporary root)) h in
      let (n, s, l, w) = written (name ∷ working root) size d u f in
      let (b, x, y, z) = copied name (working root) (temporary root) u e (elsewhere name root) g in
      let same : some (file b) ≡ some (file (urandom n)) = sym x ∙ w in
      (n, s, l, y ∙ same, z ∙ same)
    where
      elsewhere :
          (name : Word) (root : Place)
          → eq_place (name ∷ temporary root) (name ∷ working root) ≡ false
      elsewhere name root = ground arith
