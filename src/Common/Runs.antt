-- ===== src/Common/Runs.antt =====
-- Runs of characters of a class, as the patterns of the regular expressions take them.
use org_muhkuh_tools_flasher.Common.{
  ℕ, ◌≡◌, refl, Bool, true, false, Option, none, some, [], ◌∷◌, ◌++◌, All,
}
use org_muhkuh_tools_flasher.Common.Words.{Word, take_while, drop_while}

-- One or more characters of a class, as many as there are: a class and what follows it in the
-- pattern have no character in common, so the pattern has one way to match.
unfoldable pub some_of : (ℕ → Bool) → Word → Option (Word × Word)
some_of p s = elim (take_while p s) [ [] ↦ none | c ∷ w ↦ some (c ∷ w, drop_while p s) ]

-- A text that does not go on with the class.
abbrev pub Stops : (ℕ → Bool) → Word → Type 0
Stops p [] = Unit
Stops p (c ∷ s) = p c ≡ false

-- A text of one or more characters of the class.
abbrev pub Run : (ℕ → Bool) → Word → Type 0
Run p [] = ⊥
Run p (c ∷ s) = (p c ≡ true) × All (λ d. p d ≡ true) s

module _ (p : ℕ → Bool) where
  pub take_while-append :
      (w s : Word) → All (λ d. p d ≡ true) w → Stops p s → take_while p (w ++ s) ≡ w
  unfolding take_while
  take_while-append [] [] a h = refl
  take_while-append [] (c ∷ s) a h = rw h
  take_while-append (c ∷ w) s (pc, a) h = rw (pc, take_while-append w s a h)

  pub drop_while-append :
      (w s : Word) → All (λ d. p d ≡ true) w → Stops p s → drop_while p (w ++ s) ≡ s
  unfolding drop_while
  drop_while-append [] [] a h = refl
  drop_while-append [] (c ∷ s) a h = rw h
  drop_while-append (c ∷ w) s (pc, a) h = rw (pc, drop_while-append w s a h)

  pub some_of-append : (w s : Word) → Run p w → Stops p s → some_of p (w ++ s) ≡ some (w, s)
  unfolding some_of
  some_of-append [] s r h = elim r [ ]
  some_of-append (c ∷ w) s (pc, a) h =
      rw (take_while-append (c ∷ w) s (pc, a) h, some_of)
        (rw (drop_while-append (c ∷ w) s (pc, a) h) refl)
