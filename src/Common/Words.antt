-- ===== src/Common/Words.antt =====
-- Text as the list of its code points, for the code that takes text apart.
use Prim.Native.Nat.{ℕ, ◌+◌}
use Prim.Native.Char.{code}
use Prim.Native.String.{String}
use mathlib.Core.Path.{◌≡◌, refl, ap, ap₂, ◌∙◌}
use mathlib.Core.Bool.{Bool, true, false, ◌&&◌, ◌||◌}
use mathlib.Core.List.{List, [], ◌∷◌, ◌++◌, map, reverse}
use mathlib.Core.Option.{Option, none, some}
use native.Mathlib.Omega.{arith}
use org_muhkuh_tools_flasher.Common.Lists.{All}
use org_muhkuh_tools_flasher.Common.Tests.{◌==◌, leb, if◌then◌else◌}

abbrev pub Word : Type 0
Word = List ℕ

-- The code points of a text.
abbrev pub codes : String → Word
codes String.[] = []
codes (String.◌∷◌ c s) = code c ∷ codes s

abbrev pub eq_word : Word → Word → Bool
eq_word [] [] = true
eq_word [] (d ∷ t) = false
eq_word (c ∷ s) [] = false
eq_word (c ∷ s) (d ∷ t) = c == d && eq_word s t

pub eq_word-eq : (s t : Word) → eq_word s t ≡ true → s ≡ t
eq_word-eq [] [] h = refl
eq_word-eq [] (d ∷ t) h = ground arith
eq_word-eq (c ∷ s) [] h = ground arith
eq_word-eq (c ∷ s) (d ∷ t) h = ap₂ ◌∷◌ (ground arith) (eq_word-eq s t (ground arith))

pub eq_word_refl : (s : Word) → eq_word s s ≡ true
eq_word_refl [] = refl
eq_word_refl (c ∷ s) = ground (arith, eq_word_refl s)

-- `text.startswith(prefix)`
abbrev pub starts_with : Word → Word → Bool
starts_with [] t = true
starts_with (c ∷ s) [] = false
starts_with (c ∷ s) (d ∷ t) = c == d && starts_with s t

-- `part in text`
abbrev pub is_infix : Word → Word → Bool
is_infix s [] = starts_with s []
is_infix s (d ∷ t) = starts_with s (d ∷ t) || is_infix s t

push : ℕ → List Word → List Word
push c [] = (c ∷ []) ∷ []
push c (w ∷ ws) = (c ∷ w) ∷ ws

-- `text.split(sep)` for a separator of one character.
unfoldable pub split : ℕ → Word → List Word
unfolding push
split sep [] = [] ∷ []
split sep (c ∷ s) = let rest = split sep s in if c == sep then [] ∷ rest else push c rest

-- `sep.join(words)` for a separator of one character.
unfoldable pub join_words : ℕ → List Word → Word
join_words sep [] = []
join_words sep (w ∷ []) = w
join_words sep (w ∷ (v ∷ ws)) = w ++ sep ∷ join_words sep (v ∷ ws)

-- `text.lower()`, for ASCII.
lower_code : ℕ → ℕ
lower_code c = if leb b'A' c && leb c b'Z' then c + 32 else c

unfoldable pub lower : Word → Word
unfolding lower_code
lower = map lower_code

-- The blanks that `strip` and `\s` know.
abbrev pub is_space : ℕ → Bool
is_space c = c == 32 || (leb 9 c && leb c 13)

abbrev pub is_digit : ℕ → Bool
is_digit c = leb b'0' c && leb c b'9'

unfoldable pub drop_while : (ℕ → Bool) → Word → Word
drop_while p [] = []
drop_while p (c ∷ s) = if p c then drop_while p s else c ∷ s

unfoldable pub take_while : (ℕ → Bool) → Word → Word
take_while p [] = []
take_while p (c ∷ s) = let rest = take_while p s in if p c then c ∷ rest else []

-- `text.strip()`
unfoldable pub strip : Word → Word
unfolding drop_while
strip s = reverse (drop_while is_space (reverse (drop_while is_space s)))

-- `text[len(prefix):]` if the text starts with the prefix.
unfoldable pub after_prefix : Word → Word → Option Word
after_prefix [] t = some t
after_prefix (c ∷ s) [] = none
after_prefix (c ∷ s) (d ∷ t) = if c == d then after_prefix s t else none

-- A text without the separator.
abbrev pub Without : ℕ → Word → Type 0
Without sep w = All (λ c. (c == sep) ≡ false) w

split-append : (sep : ℕ) (w s : Word) → Without sep w → split sep (w ++ sep ∷ s) ≡ w ∷ split sep s
unfolding split
split-append sep [] s a = ground arith
split-append sep (c ∷ w) s (n, a) = rw (n, split-append sep w s a) refl

split_single : (sep : ℕ) (w : Word) → Without sep w → split sep w ≡ w ∷ []
unfolding split
split_single sep [] a = refl
split_single sep (c ∷ w) (n, a) = rw (n, split_single sep w a) refl

-- Words without the separator are read back from their join.
pub split-join_words :
    (sep : ℕ) (w : Word) (ws : List Word)
    → All (Without sep) (w ∷ ws)
    → split sep (join_words sep (w ∷ ws)) ≡ w ∷ ws
unfolding join_words
split-join_words sep w [] (a, _) = split_single sep w a
split-join_words sep w (v ∷ ws) (a, b) =
    split-append sep w (join_words sep (v ∷ ws)) a
    ∙ ap (λ (l : List Word). w ∷ l) (split-join_words sep v ws b)
