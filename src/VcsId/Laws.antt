-- ===== src/VcsId/Laws.antt =====
-- The names of the descriptions that git makes.
use org_muhkuh_tools_flasher.Common.{
  ◌≡◌, refl, sym, ap, ◌∙◌, Bool, true, false, none, some, [], ◌∷◌, ◌++◌, length, All, if◌then◌else◌,
}
use org_muhkuh_tools_flasher.Common.Words.{Word, codes, is_digit, split, after_prefix}
use org_muhkuh_tools_flasher.Common.Runs.{Run, some_of-append}
use org_muhkuh_tools_flasher.VcsId.{
  is_hex, at_end, without_plus, plus_follows, exactly, is_version_char, are_numbers, match_numbers,
  match_tag, match_sha, is_zero, tag_names, names, get,
}

-- A description with a tag: its version, the revisions since then, the sum, and whether files changed.
pub record Description : Type 0 where
  pub version : Word
  pub revisions : Word
  pub sha : Word
  pub is_dirty : Bool

abbrev pub plus_of : Bool → Word
plus_of true = codes "+"
plus_of false = []

pub record IsDescription (d : Description) : Type 0 where
  pub version_chars : Run is_version_char d.version
  pub numbers : are_numbers (split b'.' d.version) ≡ true
  pub digits : Run is_digit d.revisions
  pub hex : All (λ c. is_hex c ≡ true) d.sha
  pub size : length d.sha ≡ 12

-- `describe` with `long=True` and `dirty='+'`
unfoldable pub show : Description → Word
show d =
    codes "v"
    ++ (d.version ++ (codes "-" ++ (d.revisions ++ (codes "-g" ++ (d.sha ++ plus_of d.is_dirty)))))

exactly-append :
    (w s : Word) → All (λ c. is_hex c ≡ true) w → exactly (length w) (w ++ s) ≡ some (w, s)
unfolding exactly
exactly-append [] s a = refl
exactly-append (c ∷ w) s (h, a) = rw (h, exactly-append w s a) refl

exactly-sha :
    (w s : Word) → All (λ c. is_hex c ≡ true) w → length w ≡ 12 → exactly 12 (w ++ s) ≡ some (w, s)
exactly-sha w s a e = ap (λ n. exactly n (w ++ s)) (sym e) ∙ exactly-append w s a

-- A tag is matched if there is no plus, or if the pattern takes one.
tag-show :
    (d : Description) (plus : Bool)
    → IsDescription d
    → match_tag plus (show d) ≡ (
        if at_end (without_plus plus (plus_of d.is_dirty))
        then some (d.version, d.revisions, d.sha)
        else none)
unfolding match_tag match_numbers after_prefix show
tag-show d plus v = rw (some_of-append is_version_char d.version _ v.version_chars refl) (
    rw v.numbers (
      rw (some_of-append is_digit d.revisions _ v.digits refl)
        (rw (exactly-sha d.sha (plus_of d.is_dirty) v.hex v.size) refl)))

-- The names by git's description: the version of the tag itself, or the sum of a later state, with a plus
-- for changed files.
abbrev pub names_by_tag : Description → Word × Word
names_by_tag d =
    if is_zero d.revisions
    then (
      d.version ++ plus_of d.is_dirty,
      d.version ++ (codes "-" ++ (d.sha ++ plus_of d.is_dirty)),
    )
    else (d.sha ++ plus_of d.is_dirty, d.sha ++ plus_of d.is_dirty)

tagged : Description → Word × Word × Word
tagged d = (d.version, d.revisions, d.sha)

match_sha-show : (d : Description) → match_sha (show d) ≡ false
unfolding match_sha show exactly
match_sha-show d = refl

names-show :
    (d : Description)
    → IsDescription d
    → (is_dirty : Bool) → d.is_dirty ≡ is_dirty
    → names (show d) ≡ names_by_tag d
unfolding names tagged tag_names
names-show d v true e =
    let clean : match_tag false (show d) ≡ none =
      tag-show d false v ∙ ap (λ b. if at_end (plus_of b) then some (tagged d) else none) e in
    let dirty : match_tag true (show d) ≡ some (tagged d) =
      tag-show d true v
      ∙ ap (λ b. if at_end (without_plus true (plus_of b)) then some (tagged d) else none) e in
    rw (match_sha-show d, clean, dirty, e) refl
names-show d v false e =
    let clean : match_tag false (show d) ≡ some (tagged d) =
      tag-show d false v ∙ ap (λ b. if at_end (plus_of b) then some (tagged d) else none) e in
    rw (match_sha-show d, clean, e) refl

match_sha-plus :
    (sha : Word) (is_dirty : Bool)
    → All (λ c. is_hex c ≡ true) sha
    → length sha ≡ 12
    → match_sha (sha ++ plus_of is_dirty) ≡ true
unfolding match_sha
match_sha-plus sha true a e = ap plus_follows (exactly-sha sha (codes "+") a e)
match_sha-plus sha false a e = ap plus_follows (exactly-sha sha [] a e)

names-sha : (id : Word) → match_sha id ≡ true → names id ≡ (id, id)
unfolding names
names-sha id h = rw h refl

-- For each description with a tag, which has a version of numbers and dots, a number of revisions
-- and a sum of 12 hexadecimal digits: without revisions since then the version is that of the tag,
-- else it is the sum, with a plus if files changed; the long version has the sum in both cases.
pub get-show :
    (d : Description)
    → IsDescription d
    → get (some (show d)) ≡ (codes "GIT" ++ (names_by_tag d).0, codes "GIT" ++ (names_by_tag d).1)
unfolding get
get-show d v =
    ap (λ (q : Word × Word). (codes "GIT" ++ q.0, codes "GIT" ++ q.1))
      (names-show d v d.is_dirty refl)

-- For each description without a tag, which is a sum of 12 hexadecimal digits with or without a
-- plus, both versions are the description itself.
pub get-sha :
    (sha : Word) (is_dirty : Bool)
    → All (λ c. is_hex c ≡ true) sha
    → length sha ≡ 12
    → get (some (sha ++ plus_of is_dirty))
      ≡ (codes "GIT" ++ (sha ++ plus_of is_dirty), codes "GIT" ++ (sha ++ plus_of is_dirty))
unfolding get
get-sha sha is_dirty a e =
    ap (λ (q : Word × Word). (codes "GIT" ++ q.0, codes "GIT" ++ q.1))
      (names-sha _ (match_sha-plus sha is_dirty a e))
