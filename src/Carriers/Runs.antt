-- ===== src/Carriers/Runs.antt =====
-- What a run leaves of its carrier: a process of the command ended, with its return value and its outputs.
use org_muhkuh_tools_flasher.Common.{◌≡◌, refl, sym, ap, subst, true, Option, none, some}
use org_muhkuh_tools_flasher.Common.Io.{Io, ◌>>=◌, ◌>>◌, return, bind_some, result_is}
use org_muhkuh_tools_flasher.Common.Words.{Word}
use org_muhkuh_tools_flasher.Carriers.System.{Stream, Finished, CommandSystem}
use org_muhkuh_tools_flasher.Carriers.{
  Carrier, Process, captured, path_set, select_stdout, select_stderr, start_process, finish_logs,
  decode, decode_outputs, completed, run_process, execute,
}

module _ {R T : Type 0} (sys : CommandSystem R T) where
  -- A process of the command was started, and it ended so.
  abbrev pub Ran : Word → Finished → Type 0
  Ran cmd p =
      (cwd : Word) × (out : Stream) × (err : Stream) × (r : R) × (s : R) × (sys.popen cwd cmd out
          err r
        ≡ (some p, s))

  -- The text of an output: as it was if nothing was captured, else what the bytes decode to.
  abbrev pub IsText : Word → Option Word → Word → Type 0
  IsText old none new = new ≡ old
  IsText old (some output) new = sys.decode output ≡ some new

  -- A process of the command ended, and gave the return value and the texts.
  abbrev pub HasEnded : Carrier T → Word → Carrier T → Type 0
  HasEnded before cmd after =
      (p : Finished) × Ran cmd p
      × (after.ret_val ≡ p.returncode)
      × IsText before.str_stdout (captured p.stdout) after.str_stdout
      × IsText before.str_stderr (captured p.stderr) after.str_stderr

  -- What a run leaves of its carrier.
  abbrev pub IsRun : Carrier T → Carrier T → Type 0
  IsRun before after =
      (after.id ≡ before.id)
      × (after.cmd ≡ before.cmd)
      × (after.executed ≡ true)
      × (after.path_stdout ≡ before.path_stdout)
      × (after.path_stderr ≡ before.path_stderr)
      × HasEnded before before.cmd after

  start_process-Ran :
      (cwd : Word) (c : Carrier T) (p : Process T) (r s : R)
      → start_process sys cwd c r ≡ (some p, s)
      → Ran c.cmd p.finished
  unfolding start_process
  start_process-Ran cwd c p r s e =
      let (out, _, _, f) =
        bind_some (select_stdout sys cwd c.direct_out (path_set c.path_stdout) c.cmd)
          (λ out.
            select_stderr sys cwd c.direct_err (path_set c.path_stderr) c.cmd (out, c.stream_stderr)
            >>= run_with)
          e in
      let (streams, _, _, g) =
        bind_some
          (select_stderr sys cwd c.direct_err (path_set c.path_stderr) c.cmd (out, c.stream_stderr))
          run_with f in
      let (start, r3, _, h) = bind_some sys.time (run_from streams) g in
      let (finished, r4, run, i) =
        bind_some (sys.popen cwd c.cmd streams.0 streams.1) (stopped streams start) h in
      let (stop, _, _, j) =
        bind_some sys.time (λ stop. return (ended streams start finished stop)) i in
      (
        cwd,
        streams.0,
        streams.1,
        r3,
        r4,
        subst
            (λ (q : Process T). sys.popen cwd c.cmd streams.0 streams.1 r3 ≡ (some q.finished, r4))
            (result_is j).0 run,
      )
    where
      ended : Stream × Stream → T → Finished → T → Process T
      ended streams start finished stop = record {
        stream_stdout = streams.0;
        stream_stderr = streams.1;
        start = start;
        stop = stop;
        finished = finished;
      }

      stopped : Stream × Stream → T → Finished → Io R (Process T)
      stopped streams start finished =
          sys.time >>= λ stop. return (ended streams start finished stop)

      run_from : Stream × Stream → T → Io R (Process T)
      run_from streams start = sys.popen cwd c.cmd streams.0 streams.1 >>= stopped streams start

      run_with : Stream × Stream → Io R (Process T)
      run_with streams = sys.time >>= run_from streams

  decode-IsText :
      (old new : Word) (output : Option Word) (r s : R)
      → decode sys old output r ≡ (some new, s)
      → IsText old output new
  unfolding decode
  decode-IsText old new none r s e = sym (result_is e).0
  decode-IsText old new (some output) r s e = ap (λ (q : Option Word × R). q.0) e

  decode_outputs-IsText :
      (c : Carrier T) (p : Process T) (o : Word × Word) (r s : R)
      → decode_outputs sys c p r ≡ (some o, s)
      → IsText c.str_stdout (captured p.finished.stdout) o.0
        × IsText c.str_stderr (captured p.finished.stderr) o.1
  unfolding decode_outputs
  decode_outputs-IsText c p o r s e =
      let (out, r2, e2, f) =
        bind_some (decode sys c.str_stdout (captured p.finished.stdout))
          (λ out. decode sys c.str_stderr (captured p.finished.stderr) >>= λ err. return (out, err))
          e in
      let (err, r3, e3, g) =
        bind_some (decode sys c.str_stderr (captured p.finished.stderr)) (λ err. return (out, err))
          f in
      subst
        (λ (q : Word × Word).
          IsText c.str_stdout (captured p.finished.stdout) q.0
          × IsText c.str_stderr (captured p.finished.stderr) q.1)
        (result_is g).0
        (
          decode-IsText c.str_stdout out (captured p.finished.stdout) r r2 e2,
          decode-IsText c.str_stderr err (captured p.finished.stderr) r2 r3 e3,
        )

  run_process-IsRun :
      (cwd : Word) (c : Carrier T) (q : Process T × Word × Word) (r s : R)
      → run_process sys cwd c r ≡ (some q, s)
      → IsRun c (completed sys c q.0 (q.1, q.2))
  unfolding run_process completed
  run_process-IsRun cwd c q r s e =
      let (p, r2, run, f) =
        bind_some (start_process sys cwd c) (λ p. finish_logs sys c p >> with_outputs p) e in
      let (_, r3, _, g) = bind_some (finish_logs sys c p) (λ _. with_outputs p) f in
      let (o, r4, texts, h) = bind_some (decode_outputs sys c p) (λ o. return (p, o.0, o.1)) g in
      let (out, err) = decode_outputs-IsText c p o r3 r4 texts in
      subst (λ (k : Process T × Word × Word). IsRun c (completed sys c k.0 (k.1, k.2)))
        (result_is h).0
        (
          refl,
          refl,
          refl,
          refl,
          refl,
          (p.finished, start_process-Ran cwd c p r r2 run, refl, out, err),
        )
    where
      with_outputs : Process T → Io R (Process T × Word × Word)
      with_outputs p = decode_outputs sys c p >>= λ o. return (p, o.0, o.1)

  pub execute-IsRun :
      (cwd : Word) (c d : Carrier T) (r s : R) → execute sys cwd c r ≡ (some d, s) → IsRun c d
  unfolding execute
  execute-IsRun cwd c d r s e =
      let (q, r2, f, g) =
        bind_some (run_process sys cwd c) (λ q. return (completed sys c q.0 (q.1, q.2))) e in
      subst (λ (k : Carrier T). IsRun c k) (result_is g).0 (run_process-IsRun cwd c q r r2 f)
