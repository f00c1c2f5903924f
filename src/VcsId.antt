-- ===== src/VcsId.antt =====
-- jonchki/vcs_id.py, `get`: the version of the project from the description of its repository, which is
-- the text that `porcelain.describe` gives, or an exception.
pub mod Laws
mod Tests
use org_muhkuh_tools_flasher.Common.{
  ℕ, zero, suc, Bool, true, false, ◌&&◌, ◌||◌, not, Option, none, some, List, [], ◌∷◌, ◌++◌, ◌==◌,
  leb, if◌then◌else◌, ◌>>=◌,
}
use org_muhkuh_tools_flasher.Common.Words.{
  Word, codes, is_digit, split, take_while, drop_while, after_prefix,
}
use org_muhkuh_tools_flasher.Common.Runs.{some_of}

-- `[0-9a-f]`
abbrev pub is_hex : ℕ → Bool
is_hex c = is_digit c || (leb b'a' c && leb c b'f')

-- `[0-9a-f]{n}`
unfoldable pub exactly : ℕ → Word → Option (Word × Word)
exactly zero s = some ([], s)
exactly (suc n) [] = none
exactly (suc n) (c ∷ s) =
    let rest = exactly n s in
    if is_hex c then elim rest [ some (w, t) ↦ some (c ∷ w, t) | none ↦ none ] else none

-- `$`: the end, or a line feed before it.
abbrev pub at_end : Word → Bool
at_end [] = true
at_end (c ∷ []) = c == 10
at_end (c ∷ (d ∷ s)) = false

-- `\+?`, where it stands in the pattern.
abbrev pub without_plus : Bool → Word → Word
without_plus true (c ∷ s) = if c == b'+' then s else c ∷ s
without_plus allowed s = s

-- `\+?$`, if what stands before it was matched.
abbrev pub plus_follows : Option (Word × Word) → Bool
plus_follows none = false
plus_follows (some (sha, s)) = at_end (without_plus true s)

-- '[0-9a-f]{12}\+?$'
unfoldable pub match_sha : Word → Bool
unfolding exactly
match_sha id = plus_follows (exactly 12 id)

abbrev pub is_version_char : ℕ → Bool
is_version_char c = is_digit c || c == b'.'

abbrev pub all_digits : Word → Bool
all_digits [] = true
all_digits (c ∷ w) = is_digit c && all_digits w

abbrev pub is_number : Word → Bool
is_number [] = false
is_number (c ∷ w) = is_digit c && all_digits w

abbrev pub are_numbers : List Word → Bool
are_numbers [] = true
are_numbers (w ∷ ws) = is_number w && are_numbers ws

-- `\d+(\.\d+)*`: all digits and dots, since a dash follows in the pattern.
unfoldable pub match_numbers : Word → Option (Word × Word)
unfolding some_of split
match_numbers s = do
  (version, rest) ← some_of is_version_char s
  if are_numbers (split b'.' version) then some (version, rest) else none

-- The groups 1, 3 and 4 of 'v(\d+(\.\d+)*)-(\d+)-g([0-9a-f]{12})$', or with `\+?` before the end.
unfoldable pub match_tag : Bool → Word → Option (Word × Word × Word)
unfolding match_numbers after_prefix
match_tag plus id = do
  s ← after_prefix (codes "v") id
  (version, s) ← match_numbers s
  s ← after_prefix (codes "-") s
  (revisions, s) ← some_of is_digit s
  s ← after_prefix (codes "-g") s
  (sha, s) ← exactly 12 s
  if at_end (without_plus plus s) then some (version, revisions, sha) else none

-- `int(digits) == 0`
abbrev pub is_zero : Word → Bool
is_zero [] = true
is_zero (c ∷ w) = c == b'0' && is_zero w

-- The two names for a tag, with what is appended.
unfoldable pub tag_names : Word → Word × Word × Word → Word × Word
tag_names suffix (version, revisions, sha) =
    if is_zero revisions
    then (version ++ suffix, version ++ (codes "-" ++ (sha ++ suffix)))
    else (sha ++ suffix, sha ++ suffix)

-- The names for a tag that was matched, or other names.
abbrev pub names_or : Option (Word × Word × Word) → Word → Word × Word → Word × Word
names_or none suffix other = other
names_or (some tag) suffix other = tag_names suffix tag

unfoldable pub names : Word → Word × Word
unfolding match_sha match_tag tag_names
names id =
    let dirty = names_or (match_tag true id) (codes "+") (id, id) in
    let clean = names_or (match_tag false id) [] dirty in if match_sha id then (id, id) else clean

-- `none` is an exception of `describe`.
unfoldable pub get : Option Word → Word × Word
unfolding names
get none = (codes "unknown", codes "unknown")
get (some id) =
    let (version, long_version) = names id in (codes "GIT" ++ version, codes "GIT" ++ long_version)
