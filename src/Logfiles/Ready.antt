-- ===== src/Logfiles/Ready.antt =====
-- The state in which a call succeeds, and what keeps it.
use org_muhkuh_tools_flasher.Common.{
  ℕ, suc, ◌≤◌, ◌≡◌, ◌≢◌, refl, sym, ◌∙◌, ap, subst, true, false, not, Option, none, some, List, [],
  ◌∷◌, ◌++◌, ◌&&◌, ◌||◌, arith, Bool-cases, inl, inr, append_assoc,
}
use org_muhkuh_tools_flasher.Common.Io.{Io}
use org_muhkuh_tools_flasher.Common.Words.{Word, codes, eq_word, eq_word-eq}
use org_muhkuh_tools_flasher.Files.{
  Place, eq_place, Node, directory, file, Disk, is_file, is_directory, is_dir, lookup, set,
}
use org_muhkuh_tools_flasher.Files.Laws.{eq_place_refl, eq_place-length, is_dir-set, lookup-set}
use org_muhkuh_tools_flasher.Logfiles.{
  State, Call, Result, Report, results, not_provided, on_disk, last, report, report_of, temporary,
  working, zipped, uuid_or_generated, log_name, gen_name_logfiles_man,
}
use org_muhkuh_tools_flasher.Logfiles.Names.{gen_name_logfiles_man-injective}
use org_muhkuh_tools_flasher.Logfiles.Emptied.{is_in, without_file, without_file-false}
use org_muhkuh_tools_flasher.Logfiles.Reset.{directory_kept}

last-cons : (r : Result) (rs : List Result) → (q : Result) × (last (r ∷ rs) ≡ some q)
unfolding last
last-cons r [] = (r, refl)
last-cons r (s ∷ rs) = last-cons s rs

report_of-some :
    (o : Option (List Result)) (name : Word) (uuid : Option Word)
    → o ≢ some []
    → (r : Report) × (report_of o name uuid ≡ some r)
unfolding report_of
report_of-some none name uuid h = (not_provided name, refl)
report_of-some (some []) name uuid h = absurd (h refl)
report_of-some (some (r ∷ rs)) name uuid h =
    let (q, e) = last-cons r rs in (results q name uuid, rw (e, report_of) refl)

-- A file in a folder beside another folder is not that folder.
pub apart : (x y z : Word) (root : Place) → eq_place (x ∷ y ∷ root) (z ∷ root) ≡ false
apart x y z root = eq_place-length (x ∷ y ∷ root) (z ∷ root) (λ e. omega arith)

-- The name that a call gives to its files.
abbrev pub name_of : Call → ℕ → Word
name_of call index =
    log_name (call.test_name ++ b'_' ∷ call.comment)
      (gen_name_logfiles_man call call.upper_index index)

pub name_of-append :
    (call : Call) (i : ℕ) (v : Word)
    → name_of call i ++ v
      ≡ gen_name_logfiles_man call call.upper_index i
        ++ (codes "logfiles" ++ b'_' ∷ (call.test_name ++ b'_' ∷ call.comment) ++ v)
name_of-append call i v =
    append_assoc (gen_name_logfiles_man call call.upper_index i)
      (codes "logfiles" ++ b'_' ∷ (call.test_name ++ b'_' ∷ call.comment)) v

pub report-some :
    (call : Call) (w : Word) → call.result ≢ some [] → (r : Report) × (report call w ≡ some r)
unfolding report
report-some call w h = report_of-some call.result w call.uuid h

module _ {B : Type 0} where
  -- The folders are there, and nothing is refused.
  pub record IsReady (root : Place) (d : Disk B) : Type 0 where
    pub has_zipped : is_dir (zipped root) d ≡ true
    pub has_temporary : is_dir (temporary root) d ≡ true
    pub has_working : is_dir (working root) d ≡ true
    pub allows : (p : Place) → d.refuses p ≡ false

  -- No name of the UUID with this or a later index is taken in the archive folder.
  abbrev pub IsFresh : Word → Place → ℕ → Disk B → Type 0
  IsFresh uuid root index d =
      (call : Call) (i n : ℕ) (w : Word)
      → uuid_or_generated call.uuid call.stripped_uuid ≡ uuid
      → index ≤ n
      → lookup d.nodes ((gen_name_logfiles_man call i n ++ w) ∷ zipped root) ≡ none

  pub IsReady-set :
      (root : Place) (w : Word) (n : Node B) (d : Disk B)
      → IsReady root d
      → IsReady root (set (w ∷ zipped root) n d)
  IsReady-set root w n d r = record {
    has_zipped =
        is_dir-set (w ∷ zipped root) (zipped root) n d
          (apart w (codes "logs_final_zip") (codes "logs_final_zip") root)
        ∙ r.has_zipped;
    has_temporary =
        is_dir-set (w ∷ zipped root) (temporary root) n d
          (apart w (codes "logs_final_zip") (codes "logs_last_run") root)
        ∙ r.has_temporary;
    has_working =
        is_dir-set (w ∷ zipped root) (working root) n d
          (apart w (codes "logs_final_zip") (codes "logs_working_dir") root)
        ∙ r.has_working;
    allows = r.allows;
  }

  IsFresh-set :
      (call : Call) (root : Place) (i index : ℕ) (w : Word) (n : Node B) (d : Disk B)
      → IsFresh (uuid_or_generated call.uuid call.stripped_uuid) root (suc index) d
      → IsFresh
          (uuid_or_generated call.uuid call.stripped_uuid)
          root
          (suc index)
          (set ((gen_name_logfiles_man call i index ++ w) ∷ zipped root) n d)
  IsFresh-set call root i index w n d f other j m v u h =
      lookup-set ((gen_name_logfiles_man call i index ++ w) ∷ zipped root)
        ((gen_name_logfiles_man other j m ++ v) ∷ zipped root) n d
        (elim (Bool-cases (
          eq_word (gen_name_logfiles_man call i index ++ w)
            (gen_name_logfiles_man other j m ++ v))) [
              | inl e ↦
                  let (_, same) =
                    gen_name_logfiles_man-injective call other i j index m w v (sym u)
                      (eq_word-eq _ _ e) in
                  absurd (omega arith)
              | inr e ↦ rw e refl
            ])
      ∙ f other j m v u h

  -- The disk after the reset: it has what the disk before had, less the files in the two folders.
  abbrev pub Reset : Place → Disk B → Disk B → Type 0
  Reset root d after =
      (after.refuses ≡ d.refuses)
      × ((p : Place)
          → lookup after.nodes p
            ≡ without_file
                ((is_in (temporary root) p || is_in (working root) p) && not (d.refuses p))
                (lookup d.nodes p))

  pub lift :
      {A : Type 0} (f : Io (Disk B) A) {a : A} {d : Disk B} (s : State B)
      → f s.disk ≡ (some a, d)
      → on_disk f s ≡ (some a, record s { disk = d })
  lift f s e = ap (λ (q : Option _ × Disk B). (q.0, record s { disk = q.1 })) e

  pub Reset-dir :
      (root p : Place) (d after : Disk B) → Reset root d after → is_dir p after ≡ is_dir p d
  unfolding is_dir
  Reset-dir root p d after (_, looks) =
      ap is_directory (looks p) ∙ directory_kept _ (lookup d.nodes p)

  pub Reset-zipped :
      (root : Place) (x : Word) (d after : Disk B)
      → Reset root d after
      → lookup after.nodes (x ∷ zipped root) ≡ lookup d.nodes (x ∷ zipped root)
  Reset-zipped root x d after (_, looks) =
      looks (x ∷ zipped root) ∙ without_file-false (lookup d.nodes (x ∷ zipped root))

  pub Reset-IsReady :
      (root : Place) (d after : Disk B) → Reset root d after → IsReady root d → IsReady root after
  Reset-IsReady root d after r ready = record {
    has_zipped = Reset-dir root (zipped root) d after r ∙ ready.has_zipped;
    has_temporary = Reset-dir root (temporary root) d after r ∙ ready.has_temporary;
    has_working = Reset-dir root (working root) d after r ∙ ready.has_working;
    allows = λ p. ap (λ f. f p) r.0 ∙ ready.allows p;
  }

  -- A call keeps the next indexes free, for the archive as for the result beside it.
  pub IsFresh-file :
      (call : Call) (root : Place) (index : ℕ) (v : Word) (n : Node B) (d : Disk B)
      → IsFresh (uuid_or_generated call.uuid call.stripped_uuid) root (suc index) d
      → IsFresh
          (uuid_or_generated call.uuid call.stripped_uuid)
          root
          (suc index)
          (set ((name_of call index ++ v) ∷ zipped root) n d)
  IsFresh-file call root index v n d f =
      subst
        (λ (w : Word).
          IsFresh (uuid_or_generated call.uuid call.stripped_uuid) root (suc index)
            (set (w ∷ zipped root) n d))
        (sym (name_of-append call index v)) (IsFresh-set call root call.upper_index index _ n d f)

  pub free :
      (call : Call) (root : Place) (index : ℕ) (v : Word) (d : Disk B)
      → IsFresh (uuid_or_generated call.uuid call.stripped_uuid) root index d
      → lookup d.nodes ((name_of call index ++ v) ∷ zipped root) ≡ none
  free call root index v d f =
      ap (λ (w : Word). lookup d.nodes (w ∷ zipped root)) (name_of-append call index v)
      ∙ f call call.upper_index index _ refl (omega arith)

  no_file_left : (n : Option (Node B)) → is_file (without_file true n) ≡ false
  no_file_left none = refl
  no_file_left (some directory) = refl
  no_file_left (some (file c)) = refl

  pub Reset-emptied :
      (root : Place) (x : Word) (d after : Disk B)
      → Reset root d after
      → d.refuses (x ∷ temporary root) ≡ false
      → is_file (lookup after.nodes (x ∷ temporary root)) ≡ false
  Reset-emptied root x d after (_, looks) h =
      ap is_file (looks (x ∷ temporary root))
      ∙ rw (eq_place_refl root, h) (no_file_left (lookup d.nodes (x ∷ temporary root)))
