-- ===== src/Archive/Tests.antt =====
-- Runs of `extract_archive`, and the theorems at concrete archives.
use org_muhkuh_tools_flasher.Common.{◌≡◌, refl, true, List, [], ◌∷◌, All}
use org_muhkuh_tools_flasher.Common.Words.{Word, codes, split, join_words, starts_with}
use org_muhkuh_tools_flasher.Common.Paths.{abspath, relpath, dot_dot}
use org_muhkuh_tools_flasher.Archive.{invalid_member, written, leaves, extract_tar, extract_archive}
use org_muhkuh_tools_flasher.Archive.Laws.{IsInside, leaves_inside, extract_archive-IsInside}

abbrev cwd : Word
cwd = codes "/home/u"

abbrev targets : Word
targets = codes "targets"

abbrev members : List Word
members = codes "jonchki/a" ∷ codes "x/../../../etc/b" ∷ codes "jonchki/c" ∷ []

tar_run :
    extract_archive cwd (codes "tar.gz") targets members
    ≡ invalid_member (codes "jonchki/a" ∷ []) (codes "x/../../../etc/b")
unfolding extract_archive extract_tar leaves abspath relpath join_words split
tar_run = refl

-- A file name with two dots in front is refused too.
dotted : leaves cwd targets (codes "..a") ≡ true
unfolding leaves abspath relpath join_words split
dotted = refl

dotted-IsInside : IsInside cwd targets (codes "..a")
unfolding leaves abspath relpath join_words split
dotted-IsInside = record { rest = codes "..a" ∷ []; below = refl }

leaves_inside_example :
    (w : Word) × (ws : List Word) × (dotted-IsInside.rest ≡ w ∷ ws) × (starts_with dot_dot w ≡ true)
leaves_inside_example = leaves_inside cwd targets (codes "..a") dotted dotted-IsInside

extract_archive-IsInside_example :
    All (IsInside cwd targets) (written (extract_archive cwd (codes "zip") targets members))
extract_archive-IsInside_example = extract_archive-IsInside cwd targets (codes "zip") members
