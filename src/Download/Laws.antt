-- ===== src/Download/Laws.antt =====
-- What a download writes to the file and to the screen, and how it ends.
use org_muhkuh_tools_flasher.Common.{
  ℕ, zero, suc, ◌+◌, ◌/◌, ◌<◌, ◌≡◌, ◌≢◌, refl, true, some, [], ◌∷◌, ◌++◌, arith, ◌∙◌, length,
  append_assoc, length-append, append-nil, sym, ap, take, subst,
}
use native.Mathlib.Nat.{zero-add}
use org_muhkuh_tools_flasher.Progress.{Progress, update, finish, dot_size}
use org_muhkuh_tools_flasher.Progress.Loop.{Advanced}
use org_muhkuh_tools_flasher.Progress.Valid.{dots_of, dots_of-append, IsValid}
use org_muhkuh_tools_flasher.Progress.Bar.{update-Advanced, start-Advanced, IsValid-dots}
use org_muhkuh_tools_flasher.Download.{
  Bytes, ContentLength, missing, number, malformed, Read, received, read_failed, Write, whole, part,
  opened, returned, raised, Download, Transfer, complete, broken, read_chunks, outcome, receive,
  download_to_file,
}

abbrev pub announced : ContentLength → ℕ
announced (number total) = total
announced _ = 0

dots_of-finish : (p : Progress) → dots_of (finish p).out ≡ dots_of p.out
unfolding finish
dots_of-finish p = grind (arith, dots_of-append)

-- How the transfer ends: with an empty chunk, a read that raises, or a write that raises and leaves a part
-- of its chunk in the file.
pub data End : Type 0 where
  closed : End
  unread : End
  unwritten : Bytes → End

module _ (clock : ℕ → ℕ) (writes : ℕ → Write) (reads : ℕ → Read) where
  -- From a read on, so many chunks are received and written, none of them empty: together this data.
  abbrev pub Received : ℕ → ℕ → Bytes → Type 0
  Received k zero data' = data' ≡ []
  Received k (suc n) data' =
      (b : ℕ) × (bs : Bytes) × (rest : Bytes) × (reads k ≡ received (b ∷ bs))
      × (writes k ≡ whole)
      × Received (suc k) n rest
      × (data' ≡ (b ∷ bs) ++ rest)

  abbrev pub EndsAt : ℕ → End → Type 0
  EndsAt k closed = reads k ≡ received []
  EndsAt k unread = reads k ≡ read_failed
  EndsAt k (unwritten rest) =
      (b : ℕ) × (bs : Bytes) × (n : ℕ) × (reads k ≡ received (b ∷ bs))
      × (writes k ≡ part n)
      × (rest ≡ take n (b ∷ bs))

  -- What the loop gives for an end.
  abbrev Transferred : End → Bytes → ℕ → Progress → Transfer → Type 0
  Transferred closed file n p t = (q : Progress) × (t ≡ complete file q) × Advanced n p q
  Transferred unread file n p t = t ≡ broken file
  Transferred (unwritten rest) file n p t = t ≡ broken (file ++ rest)

  ending :
      (end : End) (fuel k : ℕ) (file : Bytes) (p : Progress)
      → IsValid p
      → EndsAt k end
      → Transferred end file 0 p (read_chunks clock writes (suc fuel) reads k file p)
  unfolding read_chunks
  ending closed fuel k file p v e =
      rw (read_chunks, e)
        (p, refl, record { valid = v; moved = omega arith; same_dot = refl; same_total = refl })
  ending unread fuel k file p v e = rw (read_chunks, e) refl
  ending (unwritten rest) fuel k file p v (b, bs, n, e, f, g) =
      rw (read_chunks, e, f) (ap (λ (w : Bytes). broken (file ++ w)) (sym g))

  later :
      (end : End) (file chunk rest : Bytes) (m n : ℕ) (p q : Progress) (t : Transfer)
      → Advanced m p q
      → Transferred end ((file ++ chunk) ++ rest) n q t
      → Transferred end (file ++ (chunk ++ rest)) (m + n) p t
  later closed file chunk rest m n p q t a (r, e, c) = (
    r,
    e ∙ ap (λ (f : Bytes). complete f r) (append_assoc file chunk rest),
    record {
      valid = c.valid;
      moved = omega (arith, a.moved, c.moved);
      same_dot = c.same_dot ∙ a.same_dot;
      same_total = c.same_total ∙ a.same_total;
    },
  )
  later unread file chunk rest m n p q t a e = e ∙ ap broken (append_assoc file chunk rest)
  later (unwritten bs) file chunk rest m n p q t a e =
      e ∙ ap (λ (f : Bytes). broken (f ++ bs)) (append_assoc file chunk rest)

  step :
      (fuel k b : ℕ) (bs file : Bytes) (p q : Progress)
      → reads k ≡ received (b ∷ bs)
      → writes k ≡ whole
      → update clock (length (b ∷ bs)) p ≡ some q
      → read_chunks clock writes (suc fuel) reads k file p
        ≡ read_chunks clock writes fuel reads (suc k) (file ++ b ∷ bs) q
  unfolding read_chunks
  step fuel k b bs file p q e f runs = rw (read_chunks, e, f, runs) refl

  read_chunks-Transferred :
      (end : End) (n fuel k : ℕ) (data' file : Bytes) (p : Progress)
      → IsValid p
      → Received k n data'
      → EndsAt (k + n) end
      → n < fuel
      → Transferred end
          (file ++ data')
          (length data')
          p
          (read_chunks clock writes fuel reads k file p)
  read_chunks-Transferred end n zero k data' file p v r e h = absurd (omega (arith, h))
  read_chunks-Transferred end zero (suc fuel) k data' file p v r e h =
      subst
        (λ (d : Bytes).
          Transferred end (file ++ d) (length d) p
            (read_chunks clock writes (suc fuel) reads k file p))
        (sym r)
        (subst
          (λ (f : Bytes).
            Transferred end f 0 p (read_chunks clock writes (suc fuel) reads k file p))
          (sym (append-nil file))
          (ending end fuel k file p v (subst (λ i. EndsAt i end) (omega arith) e)))
  read_chunks-Transferred end (suc n) (suc fuel) k data' file p v
        (b, bs, rest, read, write, r, same) e h =
      let (q, runs, a) = update-Advanced clock (length (b ∷ bs)) p v in
      let t =
        read_chunks-Transferred end n fuel (suc k) rest (file ++ b ∷ bs) q a.valid r
          (subst (λ i. EndsAt i end) (omega arith) e) (omega (arith, h)) in
      subst
        (λ (d : Bytes).
          Transferred end (file ++ d) (length d) p
            (read_chunks clock writes (suc fuel) reads k file p))
        (sym same)
        (subst
          (λ (i : ℕ).
            Transferred end (file ++ ((b ∷ bs) ++ rest)) i p
              (read_chunks clock writes (suc fuel) reads k file p))
          (sym (length-append (b ∷ bs) rest))
          (subst (Transferred end (file ++ ((b ∷ bs) ++ rest)) (length (b ∷ bs) + length rest) p)
            (sym (step fuel k b bs file p q read write runs))
            (later end file (b ∷ bs) rest (length (b ∷ bs)) (length rest) p q
              (read_chunks clock writes fuel reads (suc k) (file ++ b ∷ bs) q) a t)))

  -- What the function gives for an end of the transfer, with the announced length and the data.
  abbrev pub Ended : End → ℕ → Bytes → Bytes → Download → Type 0
  Ended closed total file data' d =
      (p : Progress) × (d ≡ returned true (file ++ data') (some p))
      × (dots_of p.out ≡ length data' / dot_size total)
  Ended unread total file data' d = d ≡ raised (file ++ data')
  Ended (unwritten rest) total file data' d = d ≡ raised ((file ++ data') ++ rest)

  Transferred-Ended :
      (end : End) (total : ℕ) (file data' : Bytes) (p : Progress) (t : Transfer)
      → p.current ≡ 0
      → p.dot ≡ dot_size total
      → Transferred end (file ++ data') (length data') p t
      → Ended end total file data' (outcome t)
  unfolding outcome
  Transferred-Ended closed total file data' p t at dot (q, e, a) = (
    finish q,
    ap outcome e,
    dots_of-finish q ∙ IsValid-dots q a.valid ∙ rw (a.moved, at, a.same_dot, dot) (rw zero-add),
  )
  Transferred-Ended unread total file data' p t at dot e = ap outcome e
  Transferred-Ended (unwritten rest) total file data' p t at dot e = ap outcome e

  receive-Ended :
      (end : End) (total n fuel : ℕ) (file data' : Bytes)
      → Received 0 n data'
      → EndsAt n end
      → n < fuel
      → Ended end total file data' (receive clock writes fuel total reads file)
  unfolding receive
  receive-Ended end total n fuel file data' r e h =
      let (p, runs, v, at, dot, _) = start-Advanced clock total in
      rw (receive, runs)
        (Transferred-Ended end total file data' p (read_chunks clock writes fuel reads 0 file p) at
          dot
          (read_chunks-Transferred end n fuel 0 data' file p v r
            (subst (λ i. EndsAt i end) (omega arith) e) h))

  -- For a connection that was opened, with an announced length or without, but not with a
  -- malformed one: if some chunks that are not empty are received and written, and then an empty
  -- chunk comes, a read raises or a write raises, the download ends, with more fuel than chunks.
  -- With the empty chunk it returns `True`, the file has got all the chunks, and the bar shows one
  -- dot for each full `dot_size` bytes, however the data was cut; when a read or a write raises,
  -- it raises, and the file has got the chunks and the part of the last one that was written.
  pub download_to_file-opened :
      (end : End) (header : ContentLength) (n fuel : ℕ) (file data' : Bytes)
      → header ≢ malformed
      → Received 0 n data'
      → EndsAt n end
      → n < fuel
      → Ended end
          (announced header)
          file
          data'
          (download_to_file clock writes fuel (opened header reads) file)
  unfolding download_to_file
  download_to_file-opened end missing n fuel file data' h r e l =
      receive-Ended end 0 n fuel file data' r e l
  download_to_file-opened end (number total) n fuel file data' h r e l =
      receive-Ended end total n fuel file data' r e l
  download_to_file-opened end malformed n fuel file data' h r e l = absurd (h refl)
