-- ===== src/Batch/Laws.antt =====
-- What the summary of a batch counts and writes.
use org_muhkuh_tools_flasher.Common.{
  ℕ, ◌≡◌, refl, sym, ◌∙◌, ap, subst, true, false, Option, none, some, List, [], ◌∷◌, ◌++◌, arith,
  Bool-cases, ◌⊎◌, inl, inr, none-ne-some,
}
use org_muhkuh_tools_flasher.Common.Io.{
  Io, ◌>>=◌, ◌>>◌, return, from_option, bind_some, bind_step, result_is,
}
use org_muhkuh_tools_flasher.Common.Words.{Word, codes}
use org_muhkuh_tools_flasher.Common.Paths.{join}
use org_muhkuh_tools_flasher.Common.Integers.{ℤ, pos, negsuc}
use org_muhkuh_tools_flasher.Batch.{
  Entry, Info, other, SummaryFiles, info_line, write_line, write_entries, write_summary,
  eval_batch_result,
}
use org_muhkuh_tools_flasher.Batch.Lines.{
  Failures, codes_of, AreLines, Written, write_line-Written, Written-write_line,
  write_entries-Written, Written-write_entries,
}

module _ {W H : Type 0} (files : SummaryFiles W H) where
  -- The summary of entries with so many failures: opened, written line by line, and closed.
  abbrev pub Summed : Word → Word → List Entry → ℕ → W → W → Type 0
  Summed path info array m w v =
      (handle : H) × (w1 : W) × (lines : List Word) × (w2 : W) × (w3 : W) × (files.open_file path w
        ≡ (some handle, w1))
      × AreLines array lines
      × Written files handle lines w1 w2
      × Written files handle (info ∷ []) w2 w3
      × (files.close handle w3 ≡ (some tt, v))
      × Failures (codes_of array) m

  write_summary-Summed :
      (handle : H) (info : Word) (array : List Entry) (n : ℤ) (w v : W)
      → write_summary files handle (other info) array w ≡ (some n, v)
      → (m : ℕ) × (n ≡ pos m)
        × (lines : List Word) × (w2 : W) × (w3 : W) × AreLines array lines
        × Written files handle lines w w2
        × Written files handle (info ∷ []) w2 w3
        × (files.close handle w3 ≡ (some tt, v))
        × Failures (codes_of array) m
  unfolding write_summary info_line
  write_summary-Summed handle info array n w v e =
      let (m, w2, e2, f2) = bind_some (write_entries files handle array 0) (finish array) e in
      let (_, w3, e3, f3) = bind_some (write_line files handle info) (λ _. ending m) f2 in
      let (_, w4, e4, f4) = bind_some (files.close handle) (λ _. return (pos m)) f3 in
      let (a, b) = result_is f4 in
      let (lines, k, are, written, counted, fails) =
        write_entries-Written files handle array 0 m w w2 e2 in
      let (ascii, wrote) = write_line-Written files handle info w2 w3 e3 in
      let all : m ≡ k = omega (arith, counted) in
      (
        m,
        sym a,
        lines,
        w2,
        w3,
        are,
        written,
        (w3, ascii, wrote, refl),
        e4 ∙ ap (λ (u : W). (some tt, u)) b,
        subst (Failures (codes_of array)) (sym all) fails,
      )
    where
      ending : ℕ → Io W ℤ
      ending m = files.close handle >> return (pos m)

      finish : List Entry → ℕ → Io W ℤ
      finish array m = from_option (info_line (other info) array) >>= λ text.
          write_line files handle text >> ending m

  Summed-write_summary :
      (handle : H) (info : Word) (array : List Entry) (lines : List Word) (m : ℕ) (w w2 w3 v : W)
      → AreLines array lines
      → Written files handle lines w w2
      → Written files handle (info ∷ []) w2 w3
      → files.close handle w3 ≡ (some tt, v)
      → Failures (codes_of array) m
      → write_summary files handle (other info) array w ≡ (some (pos m), v)
  unfolding write_summary info_line
  Summed-write_summary handle info array lines m w w2 w3 v are written (u, ascii, wrote, same)
        closed fails =
      bind_step (write_entries files handle array 0)
        (λ count. from_option (some info) >>= λ text.
          write_line files handle text >> (files.close handle >> return (pos count)))
        w
        (Written-write_entries files handle array lines 0 m w w2 are written fails
          ∙ ap (λ (k : ℕ). (some k, w2)) (omega arith))
      ∙ bind_step (write_line files handle info) (λ _. files.close handle >> return (pos m)) w2
          (Written-write_line files handle info w2 w3 ascii
            (wrote ∙ ap (λ (x : W). (some tt, x)) same))
      ∙ bind_step (files.close handle) (λ _. return (pos m)) w3 closed

  -- What the summary is, when it returns and when it raises.
  abbrev pub Evaluated : Word → Word → Word → List Entry → W → Option ℤ → W → Type 0
  Evaluated folder path info array w (some n) v =
      ((files.is_dir folder w ≡ false) × (n ≡ negsuc 0) × (w ≡ v))
      ⊎ ((files.is_dir folder w ≡ true) × ((m : ℕ) × (n ≡ pos m) × Summed path info array m w v))
  Evaluated folder path info array w none v =
      (files.is_dir folder w ≡ true) × ¬ ((m : ℕ) × (u : W) × Summed path info array m w u)

  -- With a path that is set, carriers, and additional info that is no unicode text. If the summary
  -- returns: either the path is no folder, the result is -1 and nothing changed, or the summary
  -- file was opened, the line of each carrier and then the info were written, each in ASCII, the
  -- file was closed, and the result is the number of carriers that have another code than 0 or
  -- that a signal ended. If it raises: the path is a folder, and these steps cannot all be done.
  pub eval_batch_result-Evaluated :
      (c : ℕ) (path prefix info : Word) (array : List Entry) (result : Option ℤ) (w v : W)
      → eval_batch_result files (some (c ∷ path)) prefix (other info) (some array) w ≡ (result, v)
      → Evaluated (c ∷ path) (join (c ∷ path) (prefix ++ codes "_00_summary")) info array w result v
  unfolding eval_batch_result
  eval_batch_result-Evaluated c path prefix info array (some n) w v e =
      elim (Bool-cases (files.is_dir (c ∷ path) w)) [
        | inr d ↦ let (a, b) = result_is (sym (rw d refl) ∙ e) in inl (d, sym a, b)
        | inl d ↦
            let (handle, w1, e1, f1) =
              bind_some (files.open_file (join (c ∷ path) (prefix ++ codes "_00_summary"))) summary
                {w = w} (sym (rw d refl) ∙ e) in
            let (m, same, lines, w2, w3, are, written, last, closed, fails) =
              write_summary-Summed handle info array n w1 v f1 in
            inr (d, (m, same, (handle, w1, lines, w2, w3, e1, are, written, last, closed, fails)))
      ]
    where
      summary : H → Io W ℤ
      summary handle =
          from_option (some array) >>= λ array. write_summary files handle (other info) array
  eval_batch_result-Evaluated c path prefix info array none w v e =
      elim (Bool-cases (files.is_dir (c ∷ path) w)) [
        | inr d ↦
            absurd (none-ne-some (negsuc 0) (sym (ap (λ (q : Option ℤ × W). q.0) e) ∙ rw d refl))
        | inl d ↦ (
          d,
          λ (m, u, (handle, w1, lines, w2, w3, opened, are, written, last, closed, fails)).
              none-ne-some (pos m) (
                sym (ap (λ (q : Option ℤ × W). q.0) e)
                ∙ rw d (
                    ap (λ (q : Option ℤ × W). q.0)
                      (bind_step (files.open_file (join (c ∷ path) (prefix ++ codes "_00_summary")))
                          summary w opened
                        ∙ Summed-write_summary handle info array lines m w1 w2 w3 u are written last
                            closed fails))),
        )
      ]
    where
      summary : H → Io W ℤ
      summary handle =
          from_option (some array) >>= λ array. write_summary files handle (other info) array

  -- A batch that was not run has no summary.
  pub eval_batch_result-none :
      (path prefix : Word) (info : Info) (n : ℤ) (w v : W)
      → eval_batch_result files (some path) prefix info none w ≡ (some n, v)
      → n ≡ negsuc 0
  unfolding eval_batch_result
  eval_batch_result-none [] prefix info n w v e =
      absurd (none-ne-some n (ap (λ (q : Option ℤ × W). q.0) e))
  eval_batch_result-none (c ∷ path) prefix info n w v e =
      elim (Bool-cases (files.is_dir (c ∷ path) w)) [
        | inr d ↦ sym (result_is {w = w} (sym (rw d refl) ∙ e)).0
        | inl d ↦
            let (handle, w1, e1, f1) =
              bind_some (files.open_file (join (c ∷ path) (prefix ++ codes "_00_summary"))) nothing
                {w = w} (sym (rw d refl) ∙ e) in
            let (array, w2, e2, f2) =
              bind_some (from_option no_carriers) (λ array. write_summary files handle info array)
                f1 in
            absurd (none-ne-some array (ap (λ (q : Option (List Entry) × W). q.0) e2))
      ]
    where
      no_carriers : Option (List Entry)
      no_carriers = none

      nothing : H → Io W ℤ
      nothing handle = from_option no_carriers >>= λ array. write_summary files handle info array

  -- What a summary that is returned counts: nothing without the folder, else the failures.
  pub eval_batch_result-Failures :
      (path prefix info : Word) (array : List Entry) (n : ℤ) (w v : W)
      → eval_batch_result files (some path) prefix (other info) (some array) w ≡ (some n, v)
      → ((files.is_dir path w ≡ false) × (n ≡ negsuc 0))
        ⊎ ((m : ℕ) × (n ≡ pos m) × Failures (codes_of array) m)
  unfolding eval_batch_result
  eval_batch_result-Failures [] prefix info array n w v e =
      absurd (none-ne-some n (ap (λ (q : Option ℤ × W). q.0) e))
  eval_batch_result-Failures (c ∷ path) prefix info array n w v e =
      elim (eval_batch_result-Evaluated c path prefix info array (some n) w v e) [
        | inl (d, a, b) ↦ inl (d, a)
        | inr (d, (m, same, (handle, w1, lines, w2, w3, e1, are, written, last, closed, fails))) ↦
            inr (m, same, fails)
      ]
