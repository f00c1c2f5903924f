-- ===== src/VcsId/Tests.antt =====
-- The names of concrete descriptions.
use org_muhkuh_tools_flasher.Common.{◌≡◌, refl, true, some, ◌++◌, All}
use org_muhkuh_tools_flasher.Common.Words.{Word, codes, split}
use org_muhkuh_tools_flasher.VcsId.{get, is_hex, names, match_tag, match_sha}
use org_muhkuh_tools_flasher.VcsId.Laws.{Description, IsDescription, show, names_by_tag, get-show}

abbrev sum : Word
sum = codes "0123456789ab"

abbrev tagged : Description
tagged = record { version = codes "1.5.4"; revisions = codes "0"; sha = sum; is_dirty = true }

sum-IsHex : All (λ c. is_hex c ≡ true) sum
sum-IsHex = (
  refl,
  (refl, (refl, (refl, (refl, (refl, (refl, (refl, (refl, (refl, (refl, (refl, tt))))))))))),
)

tagged-IsDescription : IsDescription tagged
unfolding split
tagged-IsDescription = record {
  version_chars = (refl, (refl, (refl, (refl, (refl, tt)))));
  numbers = refl;
  digits = (refl, tt);
  hex = sum-IsHex;
  size = refl;
}

get-show_example :
    get (some (show tagged))
    ≡ (codes "GIT" ++ (names_by_tag tagged).0, codes "GIT" ++ (names_by_tag tagged).1)
get-show_example = get-show tagged tagged-IsDescription

unknown : get (some (codes "main")) ≡ (codes "GITmain", codes "GITmain")
unfolding get names match_tag match_sha
unknown = refl
