-- ===== src/Carriers/Execution.antt =====
-- On a system whose operations succeed, each command is executed.
use org_muhkuh_tools_flasher.Common.{
  ◌≡◌, refl, sym, subst, Bool, true, false, Option, none, some, ◌∷◌,
}
use org_muhkuh_tools_flasher.Common.Io.{
  Io, ◌>>=◌, ◌>>◌, return, from_option, Yields, bind-Yields, from_option-Yields, return-Yields,
}
use org_muhkuh_tools_flasher.Common.Words.{Word, codes}
use org_muhkuh_tools_flasher.Common.Decimals.{decimal}
use org_muhkuh_tools_flasher.Batch.{ReturnValue, unset, exit_code, signal}
use org_muhkuh_tools_flasher.Carriers.System.{
  CommandSystem, Stream, no_stream, console, log, pipe, Finished,
}
use org_muhkuh_tools_flasher.Carriers.Texts.{text_of_code}
use org_muhkuh_tools_flasher.Carriers.{
  Carrier, Process, path_set, captured, gen_header, gen_footer, open_log, select_stdout,
  select_stderr, finish_log, decode, start_process, finish_logs, decode_outputs, completed,
  run_process, execute,
}
use org_muhkuh_tools_flasher.Carriers.Works.{Any, HasCode, IsOpen, CanFinish, Works}

module _ {R T : Type 0} (sys : CommandSystem R T) (works : Works sys) where
  open_log-Yields : (cwd path form cmd : Word) → Yields IsOpen (open_log sys cwd path form cmd)
  unfolding open_log
  open_log-Yields cwd path form cmd =
      bind-Yields IsOpen IsOpen (sys.open_file cwd path) _ (works.opens cwd path) (λ handle o.
        bind-Yields Any IsOpen sys.date _ works.dates (λ date _.
          bind-Yields Any IsOpen (sys.write handle (gen_header sys date form cmd))
            (λ _. return handle) (works.writes handle (gen_header sys date form cmd))
            (λ _ _. return-Yields IsOpen handle o)))

  select_stdout-Yields :
      (cwd : Word) (direct : Bool) (path : Option Word) (cmd : Word)
      → Yields (CanFinish path) (select_stdout sys cwd direct path cmd)
  unfolding select_stdout
  select_stdout-Yields cwd true none cmd = return-Yields (CanFinish none) console tt
  select_stdout-Yields cwd true (some path) cmd = return-Yields (CanFinish (some path)) console tt
  select_stdout-Yields cwd false none cmd = return-Yields (CanFinish none) pipe tt
  select_stdout-Yields cwd false (some path) cmd =
      open_log-Yields cwd (sys.realpath cwd path) (codes "stdout") cmd

  -- Both streams can be finished.
  abbrev BothFinish : Option Word → Option Word → Stream × Stream → Type 0
  BothFinish out err streams = CanFinish out streams.0 × CanFinish err streams.1

  select_stderr-Yields :
      (cwd : Word) (out path : Option Word) (cmd : Word) (streams : Stream × Stream)
      → CanFinish out streams.0
      → Yields (BothFinish out path) (select_stderr sys cwd false path cmd streams)
  unfolding select_stderr
  select_stderr-Yields cwd out none cmd (s, e) c =
      return-Yields (BothFinish out none) (s, pipe) (c, tt)
  select_stderr-Yields cwd out (some path) cmd (s, e) c =
      bind-Yields IsOpen (BothFinish out (some path)) (open_log sys cwd path (codes "stderr") cmd)
        (λ handle. return (s, handle)) (open_log-Yields cwd path (codes "stderr") cmd)
        (λ handle o. return-Yields (BothFinish out (some path)) (s, handle) (c, o))

  code_text : (code : ReturnValue) → HasCode code → (w : Word) × (text_of_code code ≡ some w)
  code_text unset h = absurd h
  code_text (exit_code n) h = (decimal n, refl)
  code_text (signal n) h = (b'-' ∷ decimal n, refl)

  -- The footer and the end of a stream.
  footer-Yields :
      (s : Stream) (form cmd : Word) (time : T) (code : ReturnValue)
      → HasCode code
      → Yields Any (
          sys.date >>= λ date. from_option (text_of_code code) >>= λ text.
          sys.write s (gen_footer sys date form cmd time text) >> sys.close s)
  footer-Yields s form cmd time code h =
      let (w, e) = code_text code h in
      bind-Yields Any Any sys.date _ works.dates (λ date _.
        bind-Yields Any Any (from_option (text_of_code code))
          (λ text. sys.write s (gen_footer sys date form cmd time text) >> sys.close s)
          (from_option-Yields Any w e tt)
          (λ text _.
            bind-Yields Any Any (sys.write s (gen_footer sys date form cmd time text))
              (λ _. sys.close s) (works.writes s (gen_footer sys date form cmd time text))
              (λ _ _. works.closes s)))

  finish_log-Yields :
      (path : Option Word) (s : Stream) (form cmd : Word) (time : T) (code : ReturnValue)
      → HasCode code
      → CanFinish path s
      → Yields Any (finish_log sys path s form cmd time code)
  unfolding finish_log
  finish_log-Yields none s form cmd time code h c = return-Yields Any tt tt
  finish_log-Yields (some path) no_stream form cmd time code h c = absurd c
  finish_log-Yields (some path) pipe form cmd time code h c = absurd c
  finish_log-Yields (some path) console form cmd time code h c =
      footer-Yields console form cmd time code h
  finish_log-Yields (some path) (log handle) form cmd time code h c =
      footer-Yields (log handle) form cmd time code h

  decode-Yields : (old : Word) (o : Option Word) → Yields Any (decode sys old o)
  unfolding decode
  decode-Yields old none = return-Yields Any old tt
  decode-Yields old (some output) =
      let (u, e) = works.decodes output in from_option-Yields Any u e tt

  -- A process that ended with a code, and whose log files are open.
  abbrev IsEnded : Carrier T → Process T → Type 0
  IsEnded c p =
      CanFinish (path_set c.path_stdout) p.stream_stdout
      × CanFinish (path_set c.path_stderr) p.stream_stderr
      × HasCode p.finished.returncode

  -- The process between the two times.
  abbrev run_streams : Word → Word → Stream × Stream → Io R (Process T)
  run_streams cwd cmd streams = sys.time >>= λ start.
      sys.popen cwd cmd streams.0 streams.1 >>= λ finished. sys.time >>= λ stop. return (record {
        stream_stdout = streams.0;
        stream_stderr = streams.1;
        start = start;
        stop = stop;
        finished = finished;
      })

  run_streams-Yields :
      (c : Carrier T) (cwd : Word) (streams : Stream × Stream)
      → BothFinish (path_set c.path_stdout) (path_set c.path_stderr) streams
      → Yields (IsEnded c) (run_streams cwd c.cmd streams)
  run_streams-Yields c cwd streams (a, b) =
      bind-Yields Any (IsEnded c) sys.time _ works.times (λ start _.
        bind-Yields (λ (f : Finished). HasCode f.returncode) (IsEnded c)
          (sys.popen cwd c.cmd streams.0 streams.1) _ (works.runs cwd c.cmd streams.0 streams.1)
          (λ finished h.
            bind-Yields Any (IsEnded c) sys.time
              (λ stop. return (record {
                stream_stdout = streams.0;
                stream_stderr = streams.1;
                start = start;
                stop = stop;
                finished = finished;
              }))
              works.times (λ stop _. return-Yields (IsEnded c) _ (a, b, h))))

  start_process-Yields :
      (cwd : Word) (c : Carrier T)
      → c.direct_err ≡ false
      → Yields (IsEnded c) (start_process sys cwd c)
  unfolding start_process
  start_process-Yields cwd c e =
      bind-Yields (CanFinish (path_set c.path_stdout)) (IsEnded c)
        (select_stdout sys cwd c.direct_out (path_set c.path_stdout) c.cmd)
        (λ out.
          select_stderr sys cwd c.direct_err (path_set c.path_stderr) c.cmd (out, c.stream_stderr)
          >>= run_streams cwd c.cmd)
        (select_stdout-Yields cwd c.direct_out (path_set c.path_stdout) c.cmd)
        (λ out o.
          bind-Yields (BothFinish (path_set c.path_stdout) (path_set c.path_stderr)) (IsEnded c)
            (select_stderr sys cwd c.direct_err (path_set c.path_stderr) c.cmd
              (out, c.stream_stderr))
            (run_streams cwd c.cmd)
            (subst
              (λ b.
                Yields (BothFinish (path_set c.path_stdout) (path_set c.path_stderr))
                  (select_stderr sys cwd b (path_set c.path_stderr) c.cmd (out, c.stream_stderr)))
              (sym e)
              (select_stderr-Yields cwd (path_set c.path_stdout) (path_set c.path_stderr) c.cmd
                (out, c.stream_stderr) o))
            (λ streams f. run_streams-Yields c cwd streams f))

  finish_logs-Yields :
      (c : Carrier T) (p : Process T) → IsEnded c p → Yields Any (finish_logs sys c p)
  unfolding finish_logs
  finish_logs-Yields c p (a, b, h) =
      bind-Yields Any Any
        (finish_log sys (path_set c.path_stderr) p.stream_stderr (codes "stderr") c.cmd
          (sys.minus p.stop p.start) p.finished.returncode)
        (λ _.
          finish_log sys (path_set c.path_stdout) p.stream_stdout (codes "stdout") c.cmd
            (sys.minus p.stop p.start) p.finished.returncode)
        (finish_log-Yields (path_set c.path_stderr) p.stream_stderr (codes "stderr") c.cmd
          (sys.minus p.stop p.start) p.finished.returncode h b)
        (λ _ _.
          finish_log-Yields (path_set c.path_stdout) p.stream_stdout (codes "stdout") c.cmd
            (sys.minus p.stop p.start) p.finished.returncode h a)

  decode_outputs-Yields : (c : Carrier T) (p : Process T) → Yields Any (decode_outputs sys c p)
  unfolding decode_outputs
  decode_outputs-Yields c p =
      bind-Yields Any Any (decode sys c.str_stdout (captured p.finished.stdout))
        (λ out. decode sys c.str_stderr (captured p.finished.stderr) >>= λ err. return (out, err))
        (decode-Yields c.str_stdout (captured p.finished.stdout))
        (λ out _.
          bind-Yields Any Any (decode sys c.str_stderr (captured p.finished.stderr))
            (λ err. return (out, err)) (decode-Yields c.str_stderr (captured p.finished.stderr))
            (λ err _. return-Yields Any (out, err) tt))

  run_process-Yields :
      (cwd : Word) (c : Carrier T) → c.direct_err ≡ false → Yields Any (run_process sys cwd c)
  unfolding run_process
  run_process-Yields cwd c e =
      bind-Yields (IsEnded c) Any (start_process sys cwd c)
        (λ p. finish_logs sys c p >> (decode_outputs sys c p >>= λ o. return (p, o.0, o.1)))
        (start_process-Yields cwd c e)
        (λ p h.
          bind-Yields Any Any (finish_logs sys c p)
            (λ _. decode_outputs sys c p >>= λ o. return (p, o.0, o.1)) (finish_logs-Yields c p h)
            (λ _ _.
              bind-Yields Any Any (decode_outputs sys c p) (λ o. return (p, o.0, o.1))
                (decode_outputs-Yields c p) (λ o _. return-Yields Any (p, o.0, o.1) tt)))

  pub execute-Yields :
      (cwd : Word) (c : Carrier T) → c.direct_err ≡ false → Yields Any (execute sys cwd c)
  unfolding execute
  execute-Yields cwd c e =
      bind-Yields Any Any (run_process sys cwd c) (λ r. return (completed sys c r.0 (r.1, r.2)))
        (run_process-Yields cwd c e) (λ r _. return-Yields Any (completed sys c r.0 (r.1, r.2)) tt)
