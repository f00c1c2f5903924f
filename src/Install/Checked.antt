-- ===== src/Install/Checked.antt =====
-- What `__check_jonchki_version` found out when it returns.
use org_muhkuh_tools_flasher.Common.{
  ◌≡◌, sym, ap, ◌∙◌, subst, ◌⊎◌, inl, inr, true, false, Option, none, some, [], ◌++◌, false≢true,
  some-injective, none-ne-some,
}
use org_muhkuh_tools_flasher.Common.Words.{Word, codes, strip, after_prefix, eq_word-eq}
use org_muhkuh_tools_flasher.Install.Version.{match_version}
use org_muhkuh_tools_flasher.Install.System.{
  System, Output, output, called_process_error, other_exception,
}
use org_muhkuh_tools_flasher.Common.Io.{
  bind_some, result_is, guard_some, or_else-some, guard_none, or_else-none,
}
use org_muhkuh_tools_flasher.Install.Check.{
  command_line, command, is_version, reports, output_text, read_output, write_command, check_tool,
  check_jonchki_version,
}

-- A tool was run from an existing folder and reported the version; after that only the CMD file was
-- written, with the command that is returned.
pub record IsChecked {W : Type 0} (os : System W) (lua : Option Word) (path tool version : Word)
    (file cmd : Word) (w v : W) : Type 0 where
  pub has_path : os.is_dir path w ≡ true
  pub has_tool : os.is_file tool w ≡ true
  pub text : Word
  pub after : W
  pub ran : os.check_output (command_line lua tool) w ≡ (output text, after)
  pub reported : match_version (strip text) ≡ some version
  pub is_command : cmd ≡ command lua tool
  pub wrote : v ≡ os.write_file file (cmd ++ codes "\n") after

is_version-some :
    (version : Word) (found : Option Word) → is_version version found ≡ true → found ≡ some version
is_version-some version none h = absurd (false≢true h)
is_version-some version (some found) h = ap some (sym (eq_word-eq version found h))

module _ {W : Type 0} (os : System W) where
  output_text_cases :
      (r : Output × W) (text : Word) (v : W)
      → output_text os r ≡ (some text, v)
      → ((raw : Word) × (r ≡ (output raw, v)) × (text ≡ strip raw)) ⊎ (text ≡ [])
  unfolding output_text
  output_text_cases (output raw, w) text v e =
      let (t, s) = result_is e in inl (raw, ap (λ (x : W). (output raw, x)) s, sym t)
  output_text_cases (called_process_error, w) text v e = inr (sym (result_is e).0)
  output_text_cases (other_exception, w) text v e =
      absurd (none-ne-some text (ap (λ (q : Option Word × W). q.0) e))

  check_tool-some :
      (lua : Option Word) (tool version file cmd : Word) (w v : W)
      → check_tool os lua tool version (some file) w ≡ (some (some cmd), v)
      → (os.is_file tool w ≡ true)
        × (text : Word) × (u : W) × (read_output os lua tool w ≡ (some text, u))
        × (reports version text ≡ true)
        × (cmd ≡ command lua tool)
        × (v ≡ os.write_file file (cmd ++ codes "\n") u)
  unfolding check_tool write_command
  check_tool-some lua tool version file cmd w v e =
      let (is_file, w1, a, e1) = bind_some _ _ e in
      let (is, e2) = guard_some is_file _ e1 in
      let (text, u, r, e3) = bind_some _ _ e2 in
      let (rep, e4) = guard_some (reports version text) _ e3 in
      let (t, u', m, e5) = bind_some _ _ e4 in
      let (tests, same) = result_is a in
      (
        tests ∙ is,
        text,
        u,
        subst (λ x. read_output os lua tool x ≡ (some text, u)) (sym same) r,
        rep,
        sym (some-injective _ _ (result_is e5).0),
        sym ((result_is m).1 ∙ (result_is e5).1)
            ∙ ap (λ c. os.write_file file (c ++ codes "\n") u)
                (some-injective _ _ (result_is e5).0),
      )

  -- An unstripped output without a version is none.
  tool-IsChecked :
      (lua : Option Word) (path tool version file cmd : Word) (w v : W)
      → os.is_dir path w ≡ true
      → check_tool os lua tool version (some file) w ≡ (some (some cmd), v)
      → IsChecked os lua path tool version file cmd w v
  unfolding read_output match_version after_prefix
  tool-IsChecked lua path tool version file cmd w v d e =
      let (is_file, text, u, r, rep, c, x) = check_tool-some lua tool version file cmd w v e in
      let found : match_version text ≡ some version =
        is_version-some version (match_version text) rep in
      elim (output_text_cases (os.check_output (command_line lua tool) w) text u r) [
        | inr n ↦ absurd (none-ne-some version (sym (ap match_version n) ∙ found))
        | inl (raw, o, s) ↦ record {
          has_path = d;
          has_tool = is_file;
          text = raw;
          after = u;
          ran = o;
          reported = ap match_version (sym s) ∙ found;
          is_command = c;
          wrote = x;
        }
      ]

  -- If the check of a tool returns a command, then the tool lies in the folder, was run, and reported
  -- the version; after that only the CMD file was written, with this command.
  pub check_jonchki_version-IsChecked :
      (lua : Option Word) (path tool version file cmd : Word) (w v : W)
      → check_jonchki_version os lua path tool version (some file) w ≡ (some (some cmd), v)
      → IsChecked os lua path tool version file cmd w v
  unfolding check_jonchki_version
  check_jonchki_version-IsChecked lua path tool version file cmd w v e =
      let (is_dir, w1, a, e1) = bind_some _ _ e in
      let (is, e2) = guard_some is_dir _ e1 in
      let (found, u, r, e3) = bind_some _ _ e2 in
      let (tests, same) = result_is a in
      elim (or_else-some found _ e3) [
        | inr gone ↦
            let (_, _, _, lost) = bind_some _ _ gone in absurd (none-ne-some cmd (result_is lost).0)
        | inl (is_cmd, last) ↦ tool-IsChecked lua path tool version file cmd w v (tests ∙ is) (
            subst (λ x. check_tool os lua tool version (some file) x ≡ (some (some cmd), v))
              (sym same)
              (r
                ∙ ap (λ (o : Option Word). (some o, u)) is_cmd
                ∙ ap (λ (x : W). (some (some cmd), x)) last))
      ]

  -- If the check of a tool returns no command, then its folder does not exist, or it was removed
  -- at the end.
  pub check_jonchki_version-removes :
      (lua : Option Word) (path tool version : Word) (file : Option Word) (w v : W)
      → check_jonchki_version os lua path tool version file w ≡ (some none, v)
      → ((os.is_dir path w ≡ false) × (v ≡ w))
        ⊎ ((os.is_dir path w ≡ true) × (u : W) × (v ≡ os.rmtree path u))
  unfolding check_jonchki_version
  check_jonchki_version-removes lua path tool version file w v e =
      let (is_dir, w1, a, e1) = bind_some _ _ e in
      let (tests, same) = result_is a in
      elim (guard_none is_dir _ e1) [
        | inl (missing, last) ↦ inl (tests ∙ missing, sym (same ∙ last))
        | inr (is, e2) ↦
            let (found, u, _, e3) = bind_some _ _ e2 in
            let (_, u', m, e4) = bind_some _ _ (or_else-none found _ e3) in
            inr (tests ∙ is, u, sym ((result_is m).1 ∙ (result_is e4).1))
      ]
