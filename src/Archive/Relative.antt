-- ===== src/Archive/Relative.antt =====
-- A relative path begins with '..' if it leaves its start, and otherwise only by the name of a file.
use org_muhkuh_tools_flasher.Common.{
  ℕ, zero, suc, ◌-◌, ◌<◌, ◌≡◌, ◌⊎◌, inl, inr, refl, sym, ap, true, false, List, [], ◌∷◌, ◌++◌,
  arith, length, take, drop, Bool-cases, ◌∙◌,
}
use org_muhkuh_tools_flasher.Common.Words.{
  Word, eq_word, eq_word-eq, eq_word_refl, starts_with, join_words,
}
use org_muhkuh_tools_flasher.Common.Paths.{common, ups, relpath, dot_dot, slash, or_dot}

-- Either the start is a prefix of the path, or a name of it differs.
common_cases :
    (start path : List Word)
    → (common start path < length start)
      ⊎ ((rest : List Word) × (path ≡ start ++ rest)
          × (common start path ≡ length start)
          × (drop (common start path) path ≡ rest))
unfolding common
common_cases [] path = inr (path, refl, refl, refl)
common_cases (s ∷ start) [] = inl (omega arith)
common_cases (s ∷ start) (p ∷ path) = elim (Bool-cases (eq_word s p)) [
  | inr differ ↦ rw differ (inl (omega arith))
  | inl same ↦ rw same (elim (common_cases start path) [
    | inl less ↦ inl (omega arith)
    | inr (rest, e, f, g) ↦ inr (rest, rw (eq_word-eq s p same, e), rw f, g)
  ])
]

common-append : (start rest : List Word) → common start (start ++ rest) ≡ length start
unfolding common
common-append [] rest = refl
common-append (s ∷ start) rest = rw (eq_word_refl s) (ap suc (common-append start rest))

drop-append : (start rest : List Word) → drop (length start) (start ++ rest) ≡ rest
drop-append [] rest = refl
drop-append (s ∷ start) rest = drop-append start rest

-- Below its start a relative path is the rest of the names.
relpath-append : (start rest : List Word) → relpath (start ++ rest) start ≡ relpath rest []
unfolding relpath common ups
relpath-append start rest =
    rw (common-append start rest, drop-append start rest, self_sub (length start)) refl
  where
    self_sub : (n : ℕ) → n - n ≡ 0
    self_sub n = omega arith

take-dot_dot : (names : List Word) → take 2 (join_words slash (dot_dot ∷ names)) ≡ dot_dot
unfolding join_words
take-dot_dot [] = refl
take-dot_dot (n ∷ names) = refl

ups_pos : (m : ℕ) (path : List Word) → 0 < m → (more : List Word) × (ups m path ≡ dot_dot ∷ more)
unfolding ups
ups_pos zero path h = elim h [ ]
ups_pos (suc m) path h = (ups m path, refl)

or_dot-take : (w : Word) → take 2 w ≡ dot_dot → take 2 (or_dot w) ≡ dot_dot
or_dot-take [] h = cc
or_dot-take (c ∷ w) h = h

-- Outside its start a relative path begins with '..'.
relpath_outside :
    (start path : List Word)
    → common start path < length start
    → take 2 (relpath path start) ≡ dot_dot
unfolding relpath
relpath_outside start path h =
    let (more, e) =
      ups_pos (length start - common start path) (drop (common start path) path) (omega arith) in
    or_dot-take _ (rw e (take-dot_dot more))

-- A path that does not begin with '..' is its start, and more names.
pub inside_of_relpath :
    (start path : List Word)
    → eq_word (take 2 (relpath path start)) dot_dot ≡ false
    → (rest : List Word) × (path ≡ start ++ rest)
inside_of_relpath start path h = elim (common_cases start path) [
  | inl less ↦ absurd (differ (relpath_outside start path less))
  | inr (rest, e, _, _) ↦ (rest, e)
]
  where
    differ : take 2 (relpath path start) ≡ dot_dot → ⊥
    differ e = cc (sym h ∙ ap (λ (w : Word). eq_word w dot_dot) e)

first_name :
    (rest : List Word)
    → eq_word (take 2 (or_dot (join_words slash rest))) dot_dot ≡ true
    → (w : Word) × (ws : List Word) × (rest ≡ w ∷ ws) × (starts_with dot_dot w ≡ true)
unfolding join_words
first_name [] h = absurd (ground arith)
first_name ([] ∷ []) h = absurd (ground arith)
first_name ([] ∷ (v ∷ ws)) h = absurd (ground arith)
first_name ((c ∷ []) ∷ []) h = absurd (ground arith)
first_name ((c ∷ []) ∷ (v ∷ ws)) h = absurd (ground arith)
first_name ((c ∷ (d ∷ w)) ∷ []) h = (c ∷ (d ∷ w), [], refl, ground arith)
first_name ((c ∷ (d ∷ w)) ∷ (v ∷ ws)) h = (c ∷ d ∷ w, v ∷ ws, refl, ground arith)

-- A path inside its start that begins with '..' has a first name that begins so.
pub first_name_of_relpath :
    (start rest : List Word)
    → eq_word (take 2 (relpath (start ++ rest) start)) dot_dot ≡ true
    → (w : Word) × (ws : List Word) × (rest ≡ w ∷ ws) × (starts_with dot_dot w ≡ true)
unfolding relpath common ups
first_name_of_relpath start rest h = first_name rest (rw (relpath-append start rest) at h)
