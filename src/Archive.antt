-- ===== src/Archive.antt =====
-- jonchki/jonchkihere.py, `__extract_archive`: the members of an archive are unpacked below a folder.
pub mod Relative
pub mod Laws
mod Tests
use org_muhkuh_tools_flasher.Common.{
  ℕ, String, str_eq, Bool, true, false, Option, none, some, List, [], ◌∷◌, ◌++◌, take,
  if◌then◌else◌,
}
use org_muhkuh_tools_flasher.Common.Words.{Word, codes, eq_word}
use org_muhkuh_tools_flasher.Common.Paths.{join, abspath, relpath, dot_dot}

-- The names of the members that were written below the folder, and whether the function raised.
pub data Extract : Type 0 where
  done : List Word → Extract
  invalid_member : List Word → Word → Extract
  unknown_format : Extract

abbrev pub written : Extract → List Word
written (done names) = names
written (invalid_member names name) = names
written unknown_format = []

-- `strRel[0:2] == '..'`, for a member's path relative to the folder.
unfoldable pub leaves : Word → Word → Word → Bool
leaves cwd folder name =
    eq_word (take 2 (relpath (abspath cwd (join folder name)) (abspath cwd folder))) dot_dot

-- The loop over a tar archive checks a member, and extracts it before it goes to the next.
unfoldable pub extract_tar : Word → Word → List Word → List Word → Extract
extract_tar cwd folder [] out = done out
extract_tar cwd folder (name ∷ names) out = elim (leaves cwd folder name) [
  | true ↦ invalid_member out name
  | false ↦ extract_tar cwd folder names (out ++ name ∷ [])
]

-- The loop over a zip archive only checks; `extractall` follows it.
unfoldable pub first_invalid : Word → Word → List Word → Option Word
first_invalid cwd folder [] = none
first_invalid cwd folder (name ∷ names) = elim (leaves cwd folder name) [
  | true ↦ some name
  | false ↦ first_invalid cwd folder names
]

unfoldable pub extract_zip : Word → Word → List Word → Extract
extract_zip cwd folder names = elim (first_invalid cwd folder names) [
  | some name ↦ invalid_member [] name
  | none ↦ done names
]

unfoldable pub extract_archive : Word → Word → Word → List Word → Extract
extract_archive cwd format folder names =
    if eq_word format (codes "tar.gz")
    then extract_tar cwd folder names []
    else if eq_word format (codes "zip")
    then extract_zip cwd folder names
    else unknown_format
