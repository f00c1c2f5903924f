-- ===== src/Env/Ports/Lines.antt =====
-- One line of the list of interfaces is read back as it is printed.
use org_muhkuh_tools_flasher.Common.{
  ◌>>=◌, append-nil, ℕ, ◌≡◌, refl, sym, ap, ◌∙◌, Bool, true, false, Option, none, some, List, [],
  ◌∷◌, ◌++◌, All, arith, map,
}
use org_muhkuh_tools_flasher.Common.Words.{Word, codes, is_digit, is_space}
use org_muhkuh_tools_flasher.Jasonixer.{Chip, generate_desc_empty_chip}
use org_muhkuh_tools_flasher.Env.Ports.{is_word, is_port, match_interface, read_interfaces}
use org_muhkuh_tools_flasher.Common.Runs.{some_of, Stops, Run, some_of-append}

-- One line of a listing.
pub record Interface : Type 0 where
  pub index : Word
  pub port : Word
  pub blanks : Word
  pub type : Word

pub record IsInterface (e : Interface) : Type 0 where
  pub digits : Run is_digit e.index
  pub port_chars : Run is_port e.port
  pub space : Run is_space e.blanks
  pub word_chars : Run is_word e.type

unfoldable pub show : Interface → Word
show e = e.index ++ (codes " : Name:" ++ (e.port ++ (e.blanks ++ (codes "Typ: " ++ e.type))))

space-port : (c : ℕ) → is_space c ≡ true → is_port c ≡ false
space-port c h = ground arith

blanks-Stops : (b s : Word) → Run is_space b → Stops is_port (b ++ s)
blanks-Stops [] s r = elim r [ ]
blanks-Stops (c ∷ b) s (h, _) = space-port c h

some_of-all : (p : ℕ → Bool) (w : Word) → Run p w → some_of p w ≡ some (w, [])
some_of-all p w r = sym (ap (some_of p) (append-nil w)) ∙ some_of-append p w [] r tt

match_interface-show :
    (e : Interface) → IsInterface e → match_interface (show e) ≡ some (e.index, e.port, e.type)
unfolding match_interface show
match_interface-show e v =
    rw (some_of-append is_digit e.index _ v.digits refl, match_interface)
      (rw (some_of-append is_port e.port _ v.port_chars (blanks-Stops e.blanks _ v.space)) (
        rw (some_of-append is_space e.blanks _ v.space refl)
          (rw (some_of-all is_word e.type v.word_chars) refl)))

-- The chip that a line stands for.
pub chip_of : Interface → Option Chip
chip_of e = do
  chip ← generate_desc_empty_chip none (some e.type) none (some e.port)
  some (record chip { it = some e.index })

pub chips_of : List Interface → Option (List Chip)
chips_of [] = some []
chips_of (e ∷ es) = do chip ← chip_of e; chips ← chips_of es; some (chip ∷ chips)

pub read_interfaces-map :
    (es : List Interface) → All IsInterface es → read_interfaces (map show es) ≡ chips_of es
unfolding chips_of read_interfaces chip_of
read_interfaces-map [] a = refl
read_interfaces-map (e ∷ es) (v, a) =
    rw (match_interface-show e v, read_interfaces) (rw (read_interfaces-map es a) refl)
