-- ===== src/Common/Paths.antt =====
-- The functions of Python's `posixpath` that the code calls (join, abspath, relpath). An absolute
-- path is normalised to the list of its names.
use Prim.Native.Nat.{ℕ, zero, suc, ◌-◌}
use mathlib.Core.Bool.{Bool, true, false, ◌||◌}
use mathlib.Core.List.{List, [], ◌∷◌, ◌++◌, reverse}
use org_muhkuh_tools_flasher.Common.Tests.{◌==◌, if◌then◌else◌}
use org_muhkuh_tools_flasher.Common.Lists.{length, drop}
use org_muhkuh_tools_flasher.Common.Words.{Word, eq_word, split, join_words}

abbrev pub slash : ℕ
slash = b'/'

abbrev pub dot_name : Word
dot_name = b'.' ∷ []

abbrev pub dot_dot : Word
dot_dot = b'.' ∷ b'.' ∷ []

abbrev pub is_absolute : Word → Bool
is_absolute [] = false
is_absolute (c ∷ s) = c == slash

abbrev ends_with_slash : Word → Bool
ends_with_slash [] = false
ends_with_slash (c ∷ []) = c == slash
ends_with_slash (c ∷ (d ∷ s)) = ends_with_slash (d ∷ s)

abbrev is_empty : Word → Bool
is_empty [] = true
is_empty (c ∷ s) = false

-- `os.path.join(a, b)`
unfoldable pub join : Word → Word → Word
join a b =
    if is_absolute b then b else if is_empty a || ends_with_slash a then a ++ b else a ++ slash ∷ b

-- One name of an absolute path, as `normpath` treats it; the names so far are in reverse order.
enter : Word → List Word → List Word
enter name names =
    if is_empty name || eq_word name dot_name
    then names
    else if eq_word name dot_dot
    then (elim names [ [] ↦ [] | n ∷ rest ↦ rest ])
    else name ∷ names

unfoldable pub resolve : List Word → List Word → List Word
unfolding enter
resolve names [] = reverse names
resolve names (name ∷ path) = resolve (enter name names) path

-- `abspath(path)`, as the list of its names; `cwd` is the absolute path of `os.getcwd()`.
unfoldable pub abspath : Word → Word → List Word
unfolding join resolve
abspath cwd path = resolve [] (split slash (if is_absolute path then path else join cwd path))

-- The names that two paths begin with: `len(commonprefix([start, path]))`.
unfoldable pub common : List Word → List Word → ℕ
common [] path = 0
common (s ∷ start) [] = 0
common (s ∷ start) (p ∷ path) = let rest = common start path in if eq_word s p then suc rest else 0

unfoldable pub ups : ℕ → List Word → List Word
ups zero path = path
ups (suc n) path = dot_dot ∷ ups n path

abbrev pub or_dot : Word → Word
or_dot [] = dot_name
or_dot (c ∷ s) = c ∷ s

-- `os.path.relpath(path, start)`
unfoldable pub relpath : List Word → List Word → Word
unfolding common ups
relpath path start =
    let i = common start path in or_dot (join_words slash (ups (length start - i) (drop i path)))
