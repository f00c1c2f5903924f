-- ===== src/Batch/Tests.antt =====
-- The summary of two commands, of which one failed; the state is what was written.
use org_muhkuh_tools_flasher.Common.{◌≡◌, refl, true, some, none, List, [], ◌∷◌}
use org_muhkuh_tools_flasher.Common.Io.{Io}
use org_muhkuh_tools_flasher.Common.Words.{Word, codes}
use org_muhkuh_tools_flasher.Common.Paths.{join}
use org_muhkuh_tools_flasher.Common.Integers.{ℤ, pos}
use org_muhkuh_tools_flasher.Batch.{
  Entry, exit_code, signal, other, unicode, SummaryFiles, eval_batch_result,
}
use org_muhkuh_tools_flasher.Batch.Laws.{Evaluated, eval_batch_result-Evaluated}

abbrev files : SummaryFiles (List Word) Unit
files = record {
  is_dir = λ path w. true;
  open_file = λ path w. (some tt, path ∷ w);
  write = λ handle text w. (some tt, text ∷ w);
  close = λ handle w. (some tt, codes "closed" ∷ w);
}

abbrev array : List Entry
array =
    record { ret_val = exit_code 0; line = some (codes "a") }
    ∷ record { ret_val = signal 9; line = some (codes "b") }
    ∷ []

abbrev written : List Word
written = codes "closed" ∷ codes "x\n" ∷ codes "b\n" ∷ codes "a\n" ∷ codes "/log/p_00_summary" ∷ []

-- Without a path for the log files the function raises.
without_path :
    eval_batch_result files none (codes "p") (other (codes "x")) (some array) [] ≡ (none, [])
unfolding eval_batch_result
without_path = refl

-- A text outside of ASCII is not written: the function raises, and the file stays open.
not_ascii :
    eval_batch_result files (some (codes "/log")) (codes "p") (other (233 ∷ [])) (some array) []
    ≡ (none, codes "b\n" ∷ codes "a\n" ∷ codes "/log/p_00_summary" ∷ [])
unfolding eval_batch_result
not_ascii = refl

-- A unicode text is lost: the last line stands in its place.
unicode_info :
    eval_batch_result files (some (codes "/log")) (codes "p") (unicode (codes "x")) (some array) []
    ≡ (
      some (pos 1),
      codes "closed" ∷ codes "b\n" ∷ codes "b\n" ∷ codes "a\n" ∷ codes "/log/p_00_summary" ∷ [],
    )
unfolding eval_batch_result
unicode_info = refl

abbrev evaluated : Io (List Word) ℤ
evaluated =
    eval_batch_result files (some (codes "/log")) (codes "p") (other (codes "x")) (some array)

returned : evaluated [] ≡ (some (pos 1), written)
unfolding eval_batch_result
returned = refl

eval_batch_result-Evaluated_example :
    Evaluated files
      (codes "/log")
      (join (codes "/log") (codes "p_00_summary"))
      (codes "x")
      array
      []
      (some (pos 1))
      written
eval_batch_result-Evaluated_example =
    eval_batch_result-Evaluated files b'/' (codes "log") (codes "p") (codes "x") array
      (some (pos 1)) [] written returned
