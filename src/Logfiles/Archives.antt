-- ===== src/Logfiles/Archives.antt =====
-- What is archived stays: no call overwrites or removes an archive.
use org_muhkuh_tools_flasher.Common.{
  ℕ, ◌≡◌, refl, sym, ◌∙◌, ap, false, Option, some, List, [], ◌∷◌, ◌++◌, if_cases, arith, Bool-cases,
  inl, inr, false≢true,
}
use org_muhkuh_tools_flasher.Common.Io.{Io, ◌>>=◌, ◌>>◌, gets, Moves, bind-Moves}
use org_muhkuh_tools_flasher.Common.Words.{Word, codes, eq_word, eq_word-eq}
use org_muhkuh_tools_flasher.Files.{
  Place, dirname, eq_place, Node, Nodes, Disk, exists, lookup, tree, write, attempt,
}
use org_muhkuh_tools_flasher.Files.Laws.{eq_place-eq, write-other}
use org_muhkuh_tools_flasher.Logfiles.{
  State, Call, Formats, Report, on_disk, from_option, report, temporary, working, zipped,
  mkdir_skip_existence, make_archive, log_name, archive_logs, archive_call, finish_call,
  summary_json, archive_of, get_unique_index, wrap_archive_logs_and_clear, reset_folder,
  reset_folders, logfiles_folder_reset_create,
}
use org_muhkuh_tools_flasher.Logfiles.Emptied.{is_in}
use org_muhkuh_tools_flasher.Logfiles.Reset.{reset_folder-some, mkdir_skip-some}

-- The place is directly in none of the folders.
abbrev Apart : List Place → Place → Type 0
Apart [] p = Unit
Apart (folder ∷ reset) p = (is_in folder p ≡ false) × Apart reset p

-- The two files of a call have different names.
last_code : Word → ℕ
last_code [] = 0
last_code (c ∷ []) = c
last_code (c ∷ (d ∷ w)) = last_code (d ∷ w)

last_code-append : (c : ℕ) (w v : Word) → last_code (w ++ c ∷ v) ≡ last_code (c ∷ v)
unfolding last_code
last_code-append c [] v = refl
last_code-append c (d ∷ []) v = refl
last_code-append c (d ∷ (e ∷ w)) v = last_code-append c (e ∷ w) v

pub zip_json :
    (root : Place) (w v : Word)
    → eq_place ((w ++ codes ".json") ∷ zipped root) (archive_of root v) ≡ false
unfolding last_code
zip_json root w v = elim (Bool-cases (eq_word (w ++ codes ".json") (v ++ codes ".zip"))) [
  | inl e ↦ absurd (
      differ (
        sym (last_code-append b'.' w (codes "json"))
        ∙ ap last_code (eq_word-eq (w ++ codes ".json") (v ++ codes ".zip") e)
        ∙ last_code-append b'.' v (codes "zip")))
  | inr e ↦ rw e refl
]
  where
    differ : ¬ Path ℕ b'n' b'p'
    differ e = omega arith

module _ {B : Type 0} where
  -- What is at a place stays there.
  abbrev pub Stays : Place → Disk B → Disk B → Type 0
  Stays p d e = (n : Node B) → lookup d.nodes p ≡ some n → lookup e.nodes p ≡ some n

  Stays-trans : (p : Place) (d e f : Disk B) → Stays p d e → Stays p e f → Stays p d f
  Stays-trans p d e f h k n l = k n (h n l)

  reset_folders-Stays :
      (reset : List Place) (p : Place) → Apart reset p → Moves (Stays p) (reset_folders reset)
  unfolding reset_folders
  reset_folders-Stays [] p a = λ d n e. e
  reset_folders-Stays (folder ∷ reset) p (a, b) =
      bind-Moves (Stays p) (reset_folder folder) (λ _. reset_folders reset) (Stays-trans p)
        (λ d n. reset_folder-some folder p n d a) (λ _. reset_folders-Stays reset p b)

  logfiles_reset-Stays :
      (root : Place) (v : Word)
      → Moves (Stays (archive_of root v)) (logfiles_folder_reset_create root)
  unfolding logfiles_folder_reset_create
  logfiles_reset-Stays root v =
      reset_folders-Stays (temporary root ∷ working root ∷ []) (archive_of root v)
        (refl, (refl, tt))

  write-Stays : (q p : Place) (b : B) → eq_place q p ≡ false → Moves (Stays p) (write q b)
  write-Stays q p b h d n e = write-other p q b d h ∙ e

  -- Where something is there is another place than one where nothing is.
  other_place :
      (p q : Place) (n : Node B) (d : Disk B)
      → exists q d ≡ false
      → lookup d.nodes p ≡ some n
      → eq_place q p ≡ false
  unfolding exists
  other_place p q n d h e = elim (Bool-cases (eq_place q p)) [
    | inl f ↦ absurd (false≢true (sym h ∙ rw (eq_place-eq q p f, e) refl))
    | inr f ↦ f
  ]

  get_unique_index-Stays : (p : Place) (s : State B) → Stays p s.disk (get_unique_index s).1.disk
  unfolding get_unique_index
  get_unique_index-Stays p s n e = e

  module _ (formats : Formats B) where
    make_archive-Stays :
        (archive source p : Place)
        → eq_place archive p ≡ false
        → Moves (Stays p) (make_archive formats archive source)
    unfolding make_archive
    make_archive-Stays archive source p h =
        bind-Moves (Stays p) (mkdir_skip_existence (dirname archive))
          (λ _. gets (λ (d : Disk B). tree d.nodes source) >>= write_nodes) (Stays-trans p)
          (λ d n. mkdir_skip-some p (dirname archive) n d)
          (λ _.
            bind-Moves (Stays p) (gets (λ (d : Disk B). tree d.nodes source)) write_nodes
              (Stays-trans p) (λ d n e. e) (λ nodes. write-Stays archive p (formats.zip nodes) h))
      where
        write_nodes : Nodes B → Io (Disk B) Unit
        write_nodes nodes = write archive (formats.zip nodes)

    -- Whether it raises or not, `archive_logs` keeps whatever is on the disk.
    pub archive_logs-Stays :
        (root p : Place) (suffix prefix : Word)
        → Moves (Stays p) (archive_logs formats root suffix prefix)
    unfolding archive_logs attempt ◌>>=◌
    archive_logs-Stays root p suffix prefix d n e =
        if_cases kept (exists (temporary root) d)
          (λ _.
            if_cases kept (exists archive d) (λ _. e)
              (λ h.
                make_archive-Stays archive (temporary root) p (other_place p archive n d h e) d n
                  e))
          (λ _. e)
      where
        archive : Place
        archive = archive_of root (log_name suffix prefix)

        kept : Option Word × Disk B → Type 0
        kept r = lookup r.1.nodes p ≡ some n

    finish_call-Stays :
        (root : Place) (call : Call) (w v : Word)
        → Moves
            (λ (s t : State B). Stays (archive_of root v) s.disk t.disk)
            (finish_call formats root call w)
    unfolding finish_call
    finish_call-Stays root call w v =
        bind-Moves kept (from_option (report call w)) next trans (λ s n e. e)
          (λ r.
            bind-Moves kept (on_disk (write (summary_json root w) (formats.json r)))
              (λ _. on_disk (logfiles_folder_reset_create root)) trans
              (λ s.
                write-Stays (summary_json root w) archive (formats.json r) (zip_json root w v)
                  s.disk)
              (λ _ s. reset s.disk))
      where
        archive : Place
        archive = archive_of root v

        kept : State B → State B → Type 0
        kept s t = Stays archive s.disk t.disk

        trans : (u x y : State B) → kept u x → kept x y → kept u y
        trans u x y = Stays-trans archive u.disk x.disk y.disk

        next : Report → Io (State B) Unit
        next r =
            on_disk (write (summary_json root w) (formats.json r))
            >> on_disk (logfiles_folder_reset_create root)

        reset : Moves (Stays archive) (logfiles_folder_reset_create root)
        reset = logfiles_reset-Stays root v

    wrap-Stays :
        (root : Place) (call : Call) (v : Word)
        → Moves
            (λ (s t : State B). Stays (archive_of root v) s.disk t.disk)
            (wrap_archive_logs_and_clear formats root call)
    unfolding wrap_archive_logs_and_clear archive_call
    wrap-Stays root call v = bind-Moves kept get_unique_index archived trans counted (λ i.
        bind-Moves kept (archive_call formats root call i) (finish_call formats root call) trans
          (λ s. archive_logs-Stays root (archive_of root v) _ _ s.disk)
          (λ w. finish_call-Stays root call w v))
      where
        kept : State B → State B → Type 0
        kept s t = Stays (archive_of root v) s.disk t.disk

        trans : (u x y : State B) → kept u x → kept x y → kept u y
        trans u x y = Stays-trans (archive_of root v) u.disk x.disk y.disk

        archived : ℕ → Io (State B) Unit
        archived i = archive_call formats root call i >>= finish_call formats root call

        counted : Moves kept get_unique_index
        counted s = get_unique_index-Stays (archive_of root v) s

    -- The calls of a run, each whether it raises or not.
    pub data Calls (root : Place) (s : State B) : State B → Type 0 where
      none_yet : Calls root s s
      next_call :
          {t : State B} (call : Call)
          → Calls root s t
          → Calls root s (wrap_archive_logs_and_clear formats root call t).1

    -- In every run of calls of `wrap_archive_logs_and_clear`, whatever they are and whether they
    -- raise or not, what stands in the archive folder under a name that ends with ".zip" stays as
    -- it is.
    pub Calls-archive :
        (root : Place) (name : Word) (n : Node B) {s t : State B}
        → Calls root s t
        → lookup s.disk.nodes (archive_of root name) ≡ some n
        → lookup t.disk.nodes (archive_of root name) ≡ some n
    Calls-archive root name n none_yet e = e
    Calls-archive root name n (next_call {t = t} call c) e =
        wrap-Stays root call name t n (Calls-archive root name n c e)
