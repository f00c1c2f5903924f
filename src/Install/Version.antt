-- ===== src/Install/Version.antt =====
-- jonchki/jonchkihere.py: the version in the output of the tool, by the pattern
-- 'jonchki V(\d+.\d+.\d+.\d+)', in which a dot stands for any character but the end of the line.
use org_muhkuh_tools_flasher.Common.{
  Bool, true, false, Option, none, some, [], ◌∷◌, ◌++◌, append-nil, ◌==◌, ◌≡◌, refl, ap, ◌∙◌, All,
  if◌then◌else◌, ◌>>=◌,
}
use org_muhkuh_tools_flasher.Common.Words.{Word, codes, is_digit, after_prefix}

-- `\d*`, as many as there are, and less if what follows does not match then.
unfoldable pub more_digits : (Word → Option Word) → Word → Option Word
more_digits rest [] = rest []
more_digits rest (c ∷ s) =
    let more = more_digits rest s in
    if is_digit c then elim more [ some w ↦ some (c ∷ w) | none ↦ rest (c ∷ s) ] else rest (c ∷ s)

-- `\d+`
unfoldable pub some_digits : (Word → Option Word) → Word → Option Word
unfolding more_digits
some_digits rest [] = none
some_digits rest (c ∷ s) =
    if is_digit c then elim (more_digits rest s) [ some w ↦ some (c ∷ w) | none ↦ none ] else none

-- `.`
unfoldable pub any_character : (Word → Option Word) → Word → Option Word
any_character rest [] = none
any_character rest (c ∷ s) =
    if c == 10 then none else elim (rest s) [ some w ↦ some (c ∷ w) | none ↦ none ]

unfoldable pub match_group : Word → Option Word
unfolding some_digits any_character
match_group = some_digits (
    any_character
      (some_digits (any_character (some_digits (any_character (some_digits (λ s. some [])))))))

-- `re.match(...)`, and its group.
unfoldable pub match_version : Word → Option Word
unfolding match_group
match_version output = do s ← after_prefix (codes "jonchki V") output; match_group s

-- A number of a version: digits, one at least.
abbrev pub IsNumber : Word → Type 0
IsNumber [] = ⊥
IsNumber (c ∷ w) = All (λ d. is_digit d ≡ true) (c ∷ w)

-- A text that does not begin with a digit.
abbrev pub starts_digit : Word → Bool
starts_digit [] = false
starts_digit (c ∷ s) = is_digit c

more_digits-append :
    (rest : Word → Option Word) (a s w : Word)
    → All (λ d. is_digit d ≡ true) a
    → starts_digit s ≡ false
    → rest s ≡ some w
    → more_digits rest (a ++ s) ≡ some (a ++ w)
unfolding more_digits
more_digits-append rest [] [] w d n r = r
more_digits-append rest [] (c ∷ s) w d n r = rw n r
more_digits-append rest (c ∷ a) s w (h, d) n r = rw (h, more_digits-append rest a s w d n r) refl

some_digits-append :
    (rest : Word → Option Word) (a s w : Word)
    → IsNumber a
    → starts_digit s ≡ false
    → rest s ≡ some w
    → some_digits rest (a ++ s) ≡ some (a ++ w)
unfolding some_digits
some_digits-append rest [] s w d n r = absurd d
some_digits-append rest (c ∷ a) s w (h, d) n r = rw (h, more_digits-append rest a s w d n r) refl

dotted :
    (next : Word → Option Word) (a s w : Word)
    → IsNumber a
    → next s ≡ some w
    → some_digits (any_character next) (a ++ b'.' ∷ s) ≡ some (a ++ b'.' ∷ w)
unfolding any_character
dotted next a s w h e =
    some_digits-append (any_character next) a (b'.' ∷ s) (b'.' ∷ w) h refl (rw e refl)

-- A version of four numbers, separated by dots, is read from the start of the line up to the first
-- character that is no digit.
pub match_version-dots :
    (a b c d s : Word)
    → IsNumber a
    → IsNumber b
    → IsNumber c
    → IsNumber d
    → starts_digit s ≡ false
    → match_version (codes "jonchki V" ++ (a ++ b'.' ∷ (b ++ b'.' ∷ (c ++ b'.' ∷ (d ++ s)))))
      ≡ some (a ++ b'.' ∷ (b ++ b'.' ∷ (c ++ b'.' ∷ d)))
unfolding match_version after_prefix
match_version-dots a b c d s ha hb hc hd n = dotted _ a _ _ ha (
    dotted _ b _ _ hb (
      dotted _ c _ _ hc
        (some_digits-append (λ t. some []) d s [] hd n refl ∙ ap some (append-nil d))))
