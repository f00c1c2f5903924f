-- ===== src/Logfiles/Success.antt =====
-- A manager whose folders are there, and whose archive folder holds no archive of a later index: each
-- call succeeds.
use org_muhkuh_tools_flasher.Common.{
  suc, ◌≡◌, ◌≢◌, refl, sym, ◌∙◌, ap, true, false, Option, none, some, [], ◌∷◌, ◌++◌, if_cases,
  arith, false≢true,
}
use org_muhkuh_tools_flasher.Common.Io.{Io, ◌>>=◌, ◌>>◌, bind_step}
use org_muhkuh_tools_flasher.Common.Words.{Word, codes}
use org_muhkuh_tools_flasher.Files.{
  Place, file, Disk, is_file, is_dir, exists, lookup, tree, write, attempt, set,
}
use org_muhkuh_tools_flasher.Files.Laws.{
  eq_place_sym, write-done, is_dir-exists, lookup-set, lookup-set_self,
}
use org_muhkuh_tools_flasher.Logfiles.{
  State, Call, Formats, Report, on_disk, from_option, report, temporary, working, zipped,
  uuid_or_generated, mkdir_skip_existence, make_archive, log_name, archive_logs, archive_call,
  finish_call, summary_json, archive_of, get_unique_index, gen_name_logfiles_man,
  wrap_archive_logs_and_clear, logfiles_folder_reset_create,
}
use org_muhkuh_tools_flasher.Logfiles.Archives.{zip_json}
use org_muhkuh_tools_flasher.Logfiles.Reset.{logfiles_folder_reset_create-lookup}
use org_muhkuh_tools_flasher.Logfiles.Ready.{
  name_of, IsReady, IsFresh, IsReady-set, Reset, lift, Reset-zipped, Reset-IsReady, report-some,
  IsFresh-file, free, Reset-emptied,
}

module _ {B : Type 0} (formats : Formats B) where
  make_archive-done :
      (root : Place) (w : Word) (d : Disk B)
      → is_dir (zipped root) d ≡ true
      → lookup d.nodes (archive_of root w) ≡ none
      → d.refuses (archive_of root w) ≡ false
      → make_archive formats (archive_of root w) (temporary root) d
        ≡ (some tt, set (archive_of root w) (file (formats.zip (tree d.nodes (temporary root)))) d)
  unfolding make_archive mkdir_skip_existence ◌>>=◌
  make_archive-done root w d i e r =
      rw (is_dir-exists (zipped root) d i) (write-done (archive_of root w) _ d e i r)

  archive_logs-done :
      (root : Place) (suffix prefix : Word) (d : Disk B)
      → is_dir (temporary root) d ≡ true
      → is_dir (zipped root) d ≡ true
      → lookup d.nodes (archive_of root (log_name suffix prefix)) ≡ none
      → d.refuses (archive_of root (log_name suffix prefix)) ≡ false
      → archive_logs formats root suffix prefix d ≡ (
        some (log_name suffix prefix),
        set
            (archive_of root (log_name suffix prefix))
            (file (formats.zip (tree d.nodes (temporary root))))
            d,
      )
  unfolding archive_logs exists attempt ◌>>=◌
  archive_logs-done root suffix prefix d i j e r =
      if_cases same (exists (temporary root) d)
        (λ _.
          if_cases same (exists (archive_of root (log_name suffix prefix)) d)
            (λ f. absurd (false≢true (rw e refl ∙ f)))
            (λ _.
              ap (λ (q : Option Unit × Disk B). (some (log_name suffix prefix), q.1))
                (make_archive-done root (log_name suffix prefix) d j e r)))
        (λ f. absurd (false≢true (sym f ∙ is_dir-exists (temporary root) d i)))
    where
      same : Option Word × Disk B → Type 0
      same q = q ≡ (
        some (log_name suffix prefix),
        set (archive_of root (log_name suffix prefix))
            (file (formats.zip (tree d.nodes (temporary root)))) d,
      )

  finish_call-done :
      (m : Word) (base : Place) (call : Call) (w : Word) (r : Report) (s : State B)
      → IsReady (m ∷ base) s.disk
      → lookup s.disk.nodes (summary_json (m ∷ base) w) ≡ none
      → report call w ≡ some r
      → (after : Disk B) × (finish_call formats (m ∷ base) call w s
          ≡ (some tt, record s { disk = after }))
        × Reset (m ∷ base) (set (summary_json (m ∷ base) w) (file (formats.json r)) s.disk) after
  unfolding finish_call
  finish_call-done m base call w r s ready free e =
      let root = m ∷ base in
      let later = IsReady-set root (w ++ codes ".json") (file (formats.json r)) s.disk ready in
      let (after, done, same, looks) =
        logfiles_folder_reset_create-lookup m base
          (set (summary_json root w) (file (formats.json r)) s.disk) later.has_temporary
          later.has_working (later.allows (temporary root)) (later.allows (working root)) in
      (
        after,
        bind_step (from_option (report call w)) rest s (ap (λ (o : Option Report). (o, s)) e)
            ∙ bind_step (on_disk (write (summary_json root w) (formats.json r)))
                (λ _. on_disk (logfiles_folder_reset_create root)) s
                (lift (write (summary_json root w) (formats.json r)) s (
                  write-done (summary_json root w) (formats.json r) s.disk free ready.has_zipped
                    (ready.allows (summary_json root w))))
            ∙ lift (logfiles_folder_reset_create root)
                (record s { disk = set (summary_json root w) (file (formats.json r)) s.disk }) done,
        (same, looks),
      )
    where
      rest : Report → Io (State B) Unit
      rest q =
          on_disk (write (summary_json (m ∷ base) w) (formats.json q))
          >> on_disk (logfiles_folder_reset_create (m ∷ base))

  -- What a call that succeeds leaves: its archive holds the log files, its result stands beside it, the log
  -- files are gone, and the next call can be made.
  pub record Done (root : Place) (call : Call) (s t : State B) : Type 0 where
    pub archive :
        lookup t.disk.nodes (archive_of root (name_of call s.unique_log_index))
        ≡ some (file (formats.zip (tree s.disk.nodes (temporary root))))
    pub summary :
        (r : Report) × (report call (name_of call s.unique_log_index) ≡ some r)
        × (lookup t.disk.nodes (summary_json root (name_of call s.unique_log_index))
            ≡ some (file (formats.json r)))
    pub emptied : (x : Word) → is_file (lookup t.disk.nodes (x ∷ temporary root)) ≡ false
    pub ready : IsReady root t.disk
    pub counted : t.unique_log_index ≡ suc s.unique_log_index
    pub fresh :
        IsFresh (uuid_or_generated call.uuid call.stripped_uuid) root t.unique_log_index t.disk

  -- If the three folders are there, nothing is refused, no name with this or a later index is
  -- taken for the UUID, and the list of results is not an empty one: a call of
  -- `wrap_archive_logs_and_clear` succeeds; its archive then holds the tree of the log files, the
  -- summary stands beside it, no file is left in the folder of the log files, the index is the
  -- next one, and the conditions hold again.
  pub wrap_archive_logs_and_clear-Done :
      (m : Word) (base : Place) (call : Call) (s : State B)
      → IsReady (m ∷ base) s.disk
      → IsFresh
          (uuid_or_generated call.uuid call.stripped_uuid)
          (m ∷ base)
          s.unique_log_index
          s.disk
      → call.result ≢ some []
      → (t : State B) × (wrap_archive_logs_and_clear formats (m ∷ base) call s ≡ (some tt, t))
        × Done (m ∷ base) call s t
  unfolding wrap_archive_logs_and_clear archive_call get_unique_index
  wrap_archive_logs_and_clear-Done m base call s ready fresh given =
      let root = m ∷ base in
      let i = s.unique_log_index in
      let name = name_of call i in
      let packed = file (formats.zip (tree s.disk.nodes (temporary root))) in
      let d : Disk B = set (archive_of root name) packed s.disk in
      let s1 : State B = record s { unique_log_index = suc i } in
      let s2 : State B = record { disk = d; unique_log_index = suc i } in
      let (r, e) = report-some call name given in
      let ready1 = IsReady-set root (name ++ codes ".zip") packed s.disk ready in
      let beside = zip_json root name name in
      let (after, done, reset) =
        finish_call-done m base call name r s2 ready1
          (lookup-set (archive_of root name) (summary_json root name) packed s.disk
              (eq_place_sym (summary_json root name) (archive_of root name) beside)
            ∙ free call root i (codes ".json") s.disk fresh)
          e in
      let last_disk : Disk B = set (summary_json root name) (file (formats.json r)) d in
      (
        record { disk = after; unique_log_index = suc i },
        bind_step get_unique_index
              (λ k. archive_call formats root call k >>= finish_call formats root call) s refl
            ∙ bind_step (archive_call formats root call i) (finish_call formats root call) s1 (
                lift
                  (archive_logs formats root (call.test_name ++ b'_' ∷ call.comment)
                    (gen_name_logfiles_man call call.upper_index i))
                  s1
                  (archive_logs-done root (call.test_name ++ b'_' ∷ call.comment)
                    (gen_name_logfiles_man call call.upper_index i) s.disk ready.has_temporary
                    ready.has_zipped (free call root i (codes ".zip") s.disk fresh)
                    (ready.allows (archive_of root name))))
            ∙ done,
        record {
          archive =
              Reset-zipped root _ last_disk after reset
              ∙ lookup-set (summary_json root name) (archive_of root name) _ d beside
              ∙ lookup-set_self (archive_of root name) packed s.disk;
          summary = (
            r,
            e,
            Reset-zipped root _ last_disk after reset
                ∙ lookup-set_self (summary_json root name) (file (formats.json r)) d,
          );
          emptied =
              λ x. Reset-emptied root x last_disk after reset (ready.allows (x ∷ temporary root));
          ready =
              Reset-IsReady root last_disk after reset
                (IsReady-set root (name ++ codes ".json") (file (formats.json r)) d ready1);
          counted = refl;
          fresh = λ other j n w u h.
              Reset-zipped root _ last_disk after reset
              ∙ IsFresh-file call root i (codes ".json") _ d
                  (IsFresh-file call root i (codes ".zip") packed s.disk
                    (λ c k l v q g. fresh c k l v q (omega arith)))
                  other j n w u h;
        },
      )
