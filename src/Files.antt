-- ===== src/Files.antt =====
-- The file operations of Python's `os` and `shutil` that the tools of the regression test call, on a
-- store that lists the places which are there.
pub mod Laws
use org_muhkuh_tools_flasher.Common.{
  ℕ, Bool, true, false, ◌&&◌, ◌||◌, Option, none, some, List, [], ◌∷◌, if◌then◌else◌,
}
use org_muhkuh_tools_flasher.Common.Io.{Io, ◌>>=◌, raise, modify}
use org_muhkuh_tools_flasher.Common.Words.{Word, eq_word}

-- A path is the list of its names, the last one first: `/a/b` is "b", "a", "". The empty path is the empty
-- list, and leads nowhere.
abbrev pub Place : Type 0
Place = List Word

abbrev pub dirname : Place → Place
dirname [] = []
dirname (name ∷ folder) = folder

abbrev pub eq_place : Place → Place → Bool
eq_place [] [] = true
eq_place [] (n ∷ q) = false
eq_place (m ∷ p) [] = false
eq_place (m ∷ p) (n ∷ q) = eq_word m n && eq_place p q

-- `name in names`
abbrev pub has : Word → List Word → Bool
has name [] = false
has name (n ∷ names) = eq_word n name || has name names

pub data Node (B : Type 0) : Type 0 where
  directory : Node B
  file : B → Node B

abbrev pub Nodes : Type 0 → Type 0
Nodes B = List (Place × Node B)

-- The places that are there, and those at which the operating system refuses to list, to write and
-- to remove.
pub record Disk (B : Type 0) : Type 0 where
  pub nodes : Nodes B
  pub refuses : Place → Bool

-- The place of `p` below a folder.
unfoldable pub relative : Place → Place → Option Place
relative [] folder = if eq_place [] folder then some [] else none
relative (name ∷ p) folder =
    let rest = relative p folder in
    if eq_place (name ∷ p) folder
    then some []
    else elim rest [ none ↦ none | some q ↦ some (name ∷ q) ]

module _ {B : Type 0} where
  unfoldable pub lookup : Nodes B → Place → Option (Node B)
  lookup [] p = none
  lookup ((q, n) ∷ ns) p = if eq_place q p then some n else lookup ns p

  unfoldable pub delete : Nodes B → Place → Nodes B
  delete [] p = []
  delete ((q, n) ∷ ns) p = let rest = delete ns p in if eq_place q p then rest else (q, n) ∷ rest

  unfoldable pub put : Nodes B → Place → Node B → Nodes B
  unfolding delete
  put ns p n = (p, n) ∷ delete ns p

  -- The names in a folder.
  unfoldable pub names_in : Nodes B → Place → List Word
  names_in [] folder = []
  names_in (([], n) ∷ ns) folder = names_in ns folder
  names_in ((name ∷ q, n) ∷ ns) folder =
      let rest = names_in ns folder in if eq_place q folder then name ∷ rest else rest

  -- All that lies below a folder, by the places relative to it.
  unfoldable pub tree : Nodes B → Place → Nodes B
  unfolding relative
  tree [] folder = []
  tree ((p, n) ∷ ns) folder =
      let rest = tree ns folder in elim (relative p folder) [ none ↦ rest | some q ↦ (q, n) ∷ rest ]

  abbrev pub is_some : Option (Node B) → Bool
  is_some none = false
  is_some (some n) = true

  abbrev pub is_directory : Option (Node B) → Bool
  is_directory none = false
  is_directory (some directory) = true
  is_directory (some (file b)) = false

  abbrev pub is_file : Option (Node B) → Bool
  is_file none = false
  is_file (some directory) = false
  is_file (some (file b)) = true

  unfoldable pub exists : Place → Disk B → Bool
  unfolding lookup
  exists p d = is_some (lookup d.nodes p)

  unfoldable pub is_dir : Place → Disk B → Bool
  unfolding lookup
  is_dir p d = is_directory (lookup d.nodes p)

  abbrev pub set : Place → Node B → Disk B → Disk B
  set p n d = record d { nodes = put d.nodes p n }

  abbrev pub unset : Place → Disk B → Disk B
  unset p d = record d { nodes = delete d.nodes p }

  -- `os.listdir`
  unfoldable pub listdir : Place → Io (Disk B) (List Word)
  unfolding names_in is_dir
  listdir p d =
      if is_dir p d
      then (if d.refuses p then (none, d) else (some (names_in d.nodes p), d))
      else (none, d)

  -- `os.mkdir`
  unfoldable pub mkdir : Place → Io (Disk B) Unit
  unfolding exists is_dir put
  mkdir p d =
      if exists p d
      then (none, d)
      else if is_dir (dirname p) d
      then (if d.refuses p then (none, d) else (some tt, set p directory d))
      else (none, d)

  -- `os.remove`, which removes no folders.
  unfoldable pub remove : Place → Io (Disk B) Unit
  unfolding lookup delete
  remove p d =
      if is_file (lookup d.nodes p)
      then (if d.refuses p then (none, d) else (some tt, unset p d))
      else (none, d)

  -- `open(p, 'w')`, and a write of the whole contents.
  unfoldable pub write : Place → B → Io (Disk B) Unit
  unfolding is_dir put
  write p b d =
      if is_dir p d
      then (none, d)
      else if is_dir (dirname p) d
      then (if d.refuses p then (none, d) else (some tt, set p (file b) d))
      else (none, d)

-- `try` with an `except BaseException` that only logs.
unfoldable pub attempt : {W : Type 0} → Io W Unit → Io W Unit
attempt m w = (some tt, (m w).1)
