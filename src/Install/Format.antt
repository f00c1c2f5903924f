-- ===== src/Install/Format.antt =====
-- `template.format(**astrReplace)`, as `install` uses it: names in braces are replaced by their values.
use org_muhkuh_tools_flasher.Common.{
  Option, none, some, List, [], ◌∷◌, ◌++◌, ◌==◌, if◌then◌else◌, ◌>>=◌,
}
use org_muhkuh_tools_flasher.Common.Words.{Word, codes, eq_word}

-- `astrReplace`: a value that is `None` is printed as "None".
abbrev pub Replacements : Type 0
Replacements = List (Word × Option Word)

abbrev pub shown : Option Word → Word
shown none = codes "None"
shown (some w) = w

unfoldable pub value_of : Replacements → Word → Option Word
value_of [] name = none
value_of ((n, v) ∷ rest) name = if eq_word n name then some (shown v) else value_of rest name

-- Outside of braces, in a name, or after a closing brace outside of a name.
pub data Mode : Type 0 where
  outside : Mode
  inside : Word → Mode
  closing : Mode

-- A missing name raises, as does a brace that stands alone; a doubled brace is a brace.
unfoldable pub format_from : Replacements → Mode → Word → Option Word
unfolding value_of
format_from values outside [] = some []
format_from values (inside name) [] = none
format_from values closing [] = none
format_from values outside (c ∷ s) =
    let opened = format_from values (inside []) s in
    let closed = format_from values closing s in
    let plain = format_from values outside s in
    if c == b'{'
    then opened
    else if c == b'}'
    then closed
    else elim plain [ some w ↦ some (c ∷ w) | none ↦ none ]
format_from values closing (c ∷ s) =
    let plain = format_from values outside s in
    if c == b'}' then (elim plain [ some w ↦ some (c ∷ w) | none ↦ none ]) else none
format_from values (inside []) (c ∷ s) =
    let plain = format_from values outside s in
    let named = format_from values (inside (c ∷ [])) s in
    if c == b'{'
    then elim plain [ some w ↦ some (c ∷ w) | none ↦ none ]
    else if c == b'}'
    then none
    else named
format_from values (inside (n ∷ name)) (c ∷ s) =
    let plain = format_from values outside s in
    let named = format_from values (inside (n ∷ name ++ c ∷ [])) s in
    if c == b'}'
    then (do value ← value_of values (n ∷ name); w ← plain; some (value ++ w))
    else named

unfoldable pub format : Replacements → Word → Option Word
unfolding format_from
format values template = format_from values outside template
