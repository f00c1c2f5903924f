-- ===== src/Env/Ports/Listing.antt =====
-- A listing of interfaces is read back.
use org_muhkuh_tools_flasher.Common.{
  take-length, drop-length, ℕ, suc, ◌+◌, ◌<◌, ◌≡◌, refl, sym, ap, ◌∙◌, true, false, Option, none,
  some, List, [], ◌∷◌, ◌++◌, length, All, arith, map, length-append, append_assoc,
}
use org_muhkuh_tools_flasher.Common.Words.{
  Word, is_infix, split, join_words, Without, split-join_words,
}
use org_muhkuh_tools_flasher.Env.Ports.{
  newline, start_marker, end_marker, find_markers, slice_lines, retrieve_ports,
}
use org_muhkuh_tools_flasher.Env.Ports.Lines.{
  Interface, IsInterface, show, chips_of, read_interfaces-map,
}

-- A line without a marker, and without a line feed.
pub record IsPlain (line : Word) : Type 0 where
  pub no_start : is_infix start_marker line ≡ false
  pub no_end : is_infix end_marker line ≡ false

find_markers-append :
    (pre rest : List Word) (i : ℕ) (first last : Option ℕ)
    → All IsPlain pre
    → find_markers (pre ++ rest) i first last ≡ find_markers rest (i + length pre) first last
unfolding find_markers
find_markers-append [] rest i first last a =
    ap (λ (n : ℕ). find_markers rest n first last) (omega arith)
find_markers-append (line ∷ pre) rest i first last (v, a) =
    rw (v.no_start, v.no_end)
      (find_markers-append pre rest (i + 1) first last a
        ∙ ap (λ (n : ℕ). find_markers rest n first last) (omega arith))

length-map : (es : List Interface) → length (map show es) ≡ length es
length-map [] = refl
length-map (e ∷ es) = ap suc (length-map es)

-- The lines of an output: some lines, the line that starts the list, a line, the interfaces, a line,
-- the line that ends the list, and more lines.
pub record Output : Type 0 where
  pub pre : List Word
  pub start : Word
  pub gap : Word
  pub interfaces : List Interface
  pub gap' : Word
  pub stop : Word
  pub post : List Word

unfoldable pub lines_of : Output → List Word
lines_of o = o.pre ++ o.start ∷ o.gap ∷ (map show o.interfaces ++ o.gap' ∷ o.stop ∷ o.post)

-- Only the two lines hold their markers, and no line holds a line feed.
pub record IsOutput (o : Output) : Type 0 where
  pub plain_pre : All IsPlain o.pre
  pub starts : is_infix start_marker o.start ≡ true
  pub starts_only : is_infix end_marker o.start ≡ false
  pub plain_list : All IsPlain (o.gap ∷ (map show o.interfaces ++ o.gap' ∷ []))
  pub stops : is_infix end_marker o.stop ≡ true
  pub stops_only : is_infix start_marker o.stop ≡ false
  pub plain_post : All IsPlain o.post
  pub valid : All IsInterface o.interfaces

split-join-All :
    (ls : List Word)
    → 0 < length ls
    → All (Without newline) ls
    → split newline (join_words newline ls) ≡ ls
split-join-All [] h a = absurd (omega arith)
split-join-All (l ∷ ls) h a = split-join_words newline l ls a

find_start :
    (line : Word) (rest : List Word) (i : ℕ)
    → is_infix start_marker line ≡ true
    → is_infix end_marker line ≡ false
    → find_markers (line ∷ rest) i none none ≡ find_markers rest (i + 1) (some i) none
unfolding find_markers
find_start line rest i s e = rw (s, e) refl

find_stop :
    (line : Word) (rest : List Word) (i j : ℕ)
    → is_infix end_marker line ≡ true
    → is_infix start_marker line ≡ false
    → find_markers (line ∷ rest) i (some j) none ≡ find_markers rest (i + 1) (some j) (some i)
unfolding find_markers
find_stop line rest i j e s = rw (s, e) refl

find_none :
    (post : List Word) (i : ℕ) (first last : Option ℕ)
    → All IsPlain post
    → find_markers post i first last ≡ some (first, last)
unfolding find_markers
find_none [] i first last a = refl
find_none (line ∷ post) i first last (v, a) =
    rw (v.no_start, v.no_end) (find_none post (i + 1) first last a)

some_pair :
    {i j k l : ℕ}
    → i ≡ k
    → j ≡ l
    → ◌≡◌ {A = Option (Option ℕ × Option ℕ)} (some (some i, some j)) (some (some k, some l))
some_pair e f = cc

module _ (o : Output) (v : IsOutput o) where
  abbrev listed : List Word
  listed = o.gap ∷ (map show o.interfaces ++ o.gap' ∷ [])

  listed-append :
      listed ++ o.stop ∷ o.post ≡ o.gap ∷ (map show o.interfaces ++ o.gap' ∷ o.stop ∷ o.post)
  listed-append = ap (λ (l : List Word). o.gap ∷ l) (rw append_assoc)

  length-listed : length listed ≡ length o.interfaces + 2
  length-listed =
      omega
        (arith, length-append {0} (map show o.interfaces) (o.gap' ∷ []), length-map o.interfaces)

  find_markers-lines :
      find_markers (lines_of o) 0 none none
      ≡ some (some (length o.pre), some (suc (length o.pre + 2 + length o.interfaces)))
  unfolding lines_of
  find_markers-lines =
      find_markers-append o.pre _ 0 none none v.plain_pre
      ∙ find_start o.start _ (0 + length o.pre) v.starts v.starts_only
      ∙ ap (λ (l : List Word). find_markers l (0 + length o.pre + 1) (some (0 + length o.pre)) none)
          (sym listed-append)
      ∙ find_markers-append listed (o.stop ∷ o.post) _ _ none v.plain_list
      ∙ find_stop o.stop o.post _ _ v.stops v.stops_only
      ∙ find_none o.post _ _ _ v.plain_post
      ∙ some_pair (omega arith) (omega (arith, length-listed))

  abbrev head : List Word
  head = o.pre ++ o.start ∷ o.gap ∷ []

  lines-append : (head ++ map show o.interfaces) ++ o.gap' ∷ o.stop ∷ o.post ≡ lines_of o
  unfolding lines_of
  lines-append = simp append_assoc

  length-head : length head ≡ length o.pre + 2
  length-head = omega (arith, length-append {0} o.pre (o.start ∷ o.gap ∷ []))

  slice-lines :
      slice_lines (lines_of o) (length o.pre) (suc (length o.pre + 2 + length o.interfaces))
      ≡ map show o.interfaces
  unfolding slice_lines
  slice-lines = rw (← lines-append) (
      rw
        (take-length (length o.pre + 2 + length o.interfaces) (head ++ map show o.interfaces) _ (
          omega (
            arith,
            length-head,
            length-append {0} head (map show o.interfaces),
            length-map o.interfaces,
          )))
        (drop-length (length o.pre + 2) head _ (omega (arith, length-head))))

  split-lines :
      All (Without newline) (lines_of o)
      → split newline (join_words newline (lines_of o)) ≡ lines_of o
  unfolding lines_of
  split-lines = split-join-All (lines_of o) (
      omega (
        arith,
        length-append {0} o.pre
            (o.start ∷ o.gap ∷ (map show o.interfaces ++ o.gap' ∷ o.stop ∷ o.post)),
      ))

  -- From the output of "list_interfaces", in which only one line holds the start marker and only a
  -- later one the end marker, exactly the printed interfaces, which are valid, are read, in order,
  -- each with its index, its port and its type.
  pub retrieve_ports-lines :
      All (Without newline) (lines_of o)
      → retrieve_ports (join_words newline (lines_of o)) ≡ chips_of o.interfaces
  unfolding retrieve_ports
  retrieve_ports-lines w =
      rw (split-lines w, retrieve_ports)
        (rw find_markers-lines (rw slice-lines (read_interfaces-map o.interfaces v.valid)))
