-- ===== src/Carriers/Texts.antt =====
-- The texts of the commands: their words, and the folder and the name of a path.
use org_muhkuh_tools_flasher.Common.{
  ℕ, Bool, not, Option, none, some, List, [], ◌∷◌, ◌++◌, ◌==◌, if◌then◌else◌,
}
use org_muhkuh_tools_flasher.Common.Words.{Word, is_space, drop_while, take_while}
use org_muhkuh_tools_flasher.Common.Decimals.{decimal}
use org_muhkuh_tools_flasher.Batch.{ReturnValue, unset, exit_code, signal}
use mathlib.Core.List.{reverse}

-- A blank ends a word, if there is one.
end_word : Word → List Word → List Word
end_word [] words = words
end_word (c ∷ w) words = (c ∷ w) ∷ words

-- `text.split()`, with the word so far.
split_from : Word → Word → List Word
unfolding end_word
split_from w [] = end_word w []
split_from w (c ∷ s) =
    let closed = split_from [] s in
    let longer = split_from (w ++ c ∷ []) s in if is_space c then end_word w closed else longer

unfoldable pub split_blanks : Word → List Word
unfolding split_from
split_blanks s = split_from [] s

abbrev pub no_slash : ℕ → Bool
no_slash c = not (c == b'/')

abbrev is_slash : ℕ → Bool
is_slash c = c == b'/'

-- `posixpath.basename`
unfoldable pub basename : Word → Word
unfolding take_while
basename path = reverse (take_while no_slash (reverse path))

-- A head of slashes only stays, else those at its end go.
without_end : Word → Word → Word
without_end head [] = head
without_end head (c ∷ w) = reverse (c ∷ w)

-- `posixpath.dirname`
unfoldable pub directory_name : Word → Word
unfolding drop_while without_end
directory_name path =
    let head = drop_while no_slash (reverse path) in
    without_end (reverse head) (drop_while is_slash head)

-- The loop of `strip_command_arguments`: each word loses its folder and gets a blank in front.
strip_words : List Word → Word
unfolding basename
strip_words [] = []
strip_words (w ∷ ws) = b' ' ∷ (basename w ++ strip_words ws)

abbrev tail : Word → Word
tail [] = []
tail (c ∷ w) = w

unfoldable pub strip_command_arguments : Word → Word
unfolding split_blanks strip_words
strip_command_arguments s = tail (strip_words (split_blanks s))

-- `%d` of a return code; one that is not set raises.
abbrev pub text_of_code : ReturnValue → Option Word
text_of_code unset = none
text_of_code (exit_code n) = some (decimal n)
text_of_code (signal n) = some (b'-' ∷ decimal n)
