-- ===== src/Files/Laws.antt =====
-- What each operation on the store does to each place.
use org_muhkuh_tools_flasher.Common.{
  ◌≡◌, refl, sym, ◌∙◌, ap, ap₂, true, false, none, some, [], ◌∷◌, if◌then◌else◌, arith, Bool-cases,
  Option-cases, length, ◌≢◌, inl, inr, false≢true, none-ne-some,
}
use org_muhkuh_tools_flasher.Common.Words.{Word, eq_word, eq_word-eq, eq_word_refl}
use org_muhkuh_tools_flasher.Files.{
  Place, eq_place, has, Nodes, Node, directory, file, lookup, delete, put, names_in, Disk, is_some,
  dirname, is_directory, is_dir, exists, mkdir, write, set,
}

pub eq_place_refl : (p : Place) → eq_place p p ≡ true
eq_place_refl [] = refl
eq_place_refl (n ∷ p) = rw (eq_word_refl n, eq_place_refl p) refl

pub eq_place-eq : (p q : Place) → eq_place p q ≡ true → p ≡ q
eq_place-eq [] [] h = refl
eq_place-eq [] (n ∷ q) h = ground arith
eq_place-eq (m ∷ p) [] h = ground arith
eq_place-eq (m ∷ p) (n ∷ q) h =
    ap₂ ◌∷◌ (eq_word-eq m n (ground arith)) (eq_place-eq p q (ground arith))

pub eq_place_sym : (p q : Place) → eq_place p q ≡ false → eq_place q p ≡ false
eq_place_sym p q h = elim (Bool-cases (eq_place q p)) [
  | inl e ↦ absurd (false≢true (sym h ∙ rw (eq_place-eq q p e) (eq_place_refl p)))
  | inr e ↦ e
]

module _ {B : Type 0} where
  pub lookup-delete :
      (ns : Nodes B) (p q : Place)
      → lookup (delete ns p) q ≡ (if eq_place p q then none else lookup ns q)
  unfolding lookup delete
  lookup-delete [] p q = ground arith
  lookup-delete ((r, n) ∷ ns) p q = elim (Bool-cases (eq_place r p)) [
    | inl e ↦ rw e (
        lookup-delete ns p q ∙ elim (Bool-cases (eq_place p q)) [
          | inl f ↦ rw f refl
          | inr f ↦ rw (f, eq_place-eq r p e, f) refl
        ])
    | inr e ↦ rw e (elim (Bool-cases (eq_place r q)) [
      | inl f ↦
          let g : eq_place p q ≡ false = elim (Bool-cases (eq_place p q)) [
            | inl g ↦
                absurd
                  (false≢true (sym e ∙ rw (eq_place-eq r q f, eq_place-eq p q g) (eq_place_refl q)))
            | inr g ↦ g
          ] in
          rw (f, g) refl
      | inr f ↦ rw (f, lookup-delete ns p q) refl
    ])
  ]

  pub lookup-put :
      (ns : Nodes B) (p q : Place) (n : Node B)
      → lookup (put ns p n) q ≡ (if eq_place p q then some n else lookup ns q)
  unfolding lookup put
  lookup-put ns p q n = elim (Bool-cases (eq_place p q)) [
    | inl e ↦ rw e refl
    | inr e ↦ rw (e, lookup-delete ns p q, e) refl
  ]

  -- What is directly in a folder is listed.
  pub names_in-lookup :
      (ns : Nodes B) (folder : Place) (name : Word) (n : Node B)
      → lookup ns (name ∷ folder) ≡ some n
      → has name (names_in ns folder) ≡ true
  unfolding lookup names_in
  names_in-lookup [] folder name n h = absurd (none-ne-some n h)
  names_in-lookup (([], m) ∷ ns) folder name n h = names_in-lookup ns folder name n h
  names_in-lookup ((k ∷ q, m) ∷ ns) folder name n h = elim (Bool-cases (eq_place q folder)) [
    | inl e ↦ elim (Bool-cases (eq_word k name)) [
      | inl f ↦ rw (e, f) refl
      | inr f ↦ rw (e, f) (names_in-lookup ns folder name n (sym (rw f refl) ∙ h))
    ]
    | inr e ↦ rw e (names_in-lookup ns folder name n (sym (other e) ∙ h))
  ]
    where
      other :
          eq_place q folder ≡ false
          → lookup ((k ∷ q, m) ∷ ns) (name ∷ folder) ≡ lookup ns (name ∷ folder)
      other e = elim (Bool-cases (eq_word k name)) [ inl f ↦ rw (f, e) refl | inr f ↦ rw f refl ]

  -- No operation changes what the system refuses; what is somewhere stays, when a folder is made.
  pub mkdir-refuses : (q : Place) (d : Disk B) → (mkdir q d).1.refuses ≡ d.refuses
  unfolding mkdir
  mkdir-refuses q d = ground arith

  pub write-refuses : (q : Place) (b : B) (d : Disk B) → (write q b d).1.refuses ≡ d.refuses
  unfolding write
  write-refuses q b d = ground arith

  put-some :
      (ns : Nodes B) (p q : Place) (m n : Node B)
      → is_some (lookup ns q) ≡ false
      → lookup ns p ≡ some n
      → lookup (put ns q m) p ≡ some n
  put-some ns p q m n a e = lookup-put ns q p m ∙ elim (Bool-cases (eq_place q p)) [
    | inl f ↦ absurd (false≢true (sym a ∙ rw (eq_place-eq q p f, e) refl))
    | inr f ↦ rw f e
  ]

  pub mkdir-some :
      (p q : Place) (n : Node B) (d : Disk B)
      → lookup d.nodes p ≡ some n
      → lookup (mkdir q d).1.nodes p ≡ some n
  unfolding mkdir exists
  mkdir-some p q n d e = elim (Bool-cases (is_some (lookup d.nodes q))) [
    | inl f ↦ rw f e
    | inr f ↦ elim (Bool-cases (is_dir (dirname q) d)) [
      | inl g ↦ elim (Bool-cases (d.refuses q)) [
        | inl h ↦ rw (f, g, h) e
        | inr h ↦ rw (f, g, h) (put-some d.nodes p q directory n f e)
      ]
      | inr g ↦ rw (f, g) e
    ]
  ]

  -- A write to another place, or to a place where nothing is, keeps what is there.
  pub write-other :
      (p q : Place) (b : B) (d : Disk B)
      → eq_place q p ≡ false
      → lookup (write q b d).1.nodes p ≡ lookup d.nodes p
  unfolding write
  write-other p q b d o = elim (Bool-cases (is_dir q d)) [
    | inl f ↦ rw f refl
    | inr f ↦ elim (Bool-cases (is_dir (dirname q) d)) [
      | inl g ↦ elim (Bool-cases (d.refuses q)) [
        | inl h ↦ rw (f, g, h) refl
        | inr h ↦ rw (f, g, h) (lookup-put d.nodes q p (file b) ∙ rw o refl)
      ]
      | inr g ↦ rw (f, g) refl
    ]
  ]

  pub write-some :
      (p q : Place) (b : B) (n : Node B) (d : Disk B)
      → is_some (lookup d.nodes q) ≡ false
      → lookup d.nodes p ≡ some n
      → lookup (write q b d).1.nodes p ≡ some n
  write-some p q b n d a e = elim (Bool-cases (eq_place q p)) [
    | inl f ↦ absurd (false≢true (sym a ∙ rw (eq_place-eq q p f, e) refl))
    | inr f ↦ write-other p q b d f ∙ e
  ]

  pub mkdir-done :
      (p : Place) (d : Disk B)
      → lookup d.nodes p ≡ none
      → is_dir (dirname p) d ≡ true
      → d.refuses p ≡ false
      → mkdir p d ≡ (some tt, set p directory d)
  unfolding mkdir exists
  mkdir-done p d e h r = rw (e, h, r) refl

  pub write-done :
      (p : Place) (b : B) (d : Disk B)
      → lookup d.nodes p ≡ none
      → is_dir (dirname p) d ≡ true
      → d.refuses p ≡ false
      → write p b d ≡ (some tt, set p (file b) d)
  unfolding write is_dir
  write-done p b d e h r = rw (e, h, r) refl

  pub is_dir-exists : (p : Place) (d : Disk B) → is_dir p d ≡ true → exists p d ≡ true
  unfolding is_dir exists
  is_dir-exists p d h = elim (Option-cases (lookup d.nodes p)) [
    | inl e ↦ absurd (false≢true (rw e refl ∙ h))
    | inr (n, e) ↦ rw e refl
  ]

  pub lookup-set :
      (q p : Place) (n : Node B) (d : Disk B)
      → eq_place q p ≡ false
      → lookup (set q n d).nodes p ≡ lookup d.nodes p
  lookup-set q p n d h = lookup-put d.nodes q p n ∙ rw h refl

  pub lookup-set_self : (p : Place) (n : Node B) (d : Disk B) → lookup (set p n d).nodes p ≡ some n
  lookup-set_self p n d = lookup-put d.nodes p p n ∙ rw (eq_place_refl p) refl

  pub is_dir-set :
      (q p : Place) (n : Node B) (d : Disk B)
      → eq_place q p ≡ false
      → is_dir p (set q n d) ≡ is_dir p d
  unfolding is_dir
  is_dir-set q p n d h = ap is_directory (lookup-set q p n d h)

-- Paths of different depths are different.
pub eq_place-length : (p q : Place) → length p ≢ length q → eq_place p q ≡ false
eq_place-length p q h = elim (Bool-cases (eq_place p q)) [
  | inl e ↦ absurd (h (ap length (eq_place-eq p q e)))
  | inr e ↦ e
]
