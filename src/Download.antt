-- ===== src/Download.antt =====
-- jonchki/jonchkihere.py, `download_to_file`. The network is the response of `urllib2.urlopen`, which may
-- go on for ever; a read or a write may raise.
pub mod Laws
mod Tests
use org_muhkuh_tools_flasher.Common.{
  ℕ, zero, suc, Bool, true, false, Option, none, some, List, [], ◌∷◌, ◌++◌, length, take,
}
use org_muhkuh_tools_flasher.Progress.{Progress, update, start, finish}

-- The bytes of a file or of a chunk.
abbrev pub Bytes : Type 0
Bytes = List ℕ

-- The header 'content-length': missing (a `KeyError`), a number from 0, or a text that `int` refuses.
pub data ContentLength : Type 0 where
  missing : ContentLength
  number : ℕ → ContentLength
  malformed : ContentLength

-- What `aSocket.read` does: it gives a chunk, which is empty at the end of the data, or raises.
pub data Read : Type 0 where
  received : Bytes → Read
  read_failed : Read

-- What `tFile.write` does: it writes all of a chunk, or raises after so many of its bytes.
pub data Write : Type 0 where
  whole : Write
  part : ℕ → Write

-- An open socket, with what each read of it does.
pub data Response : Type 0 where
  http_error : ℕ → Response
  other_error : Response
  opened : ContentLength → (ℕ → Read) → Response

-- What the function returns, with the file and the progress bar, if one was made. An exception that the
-- function does not catch is `raised`; `unfinished` is a loop that has not ended within the fuel.
pub data Download : Type 0 where
  returned : Bool → Bytes → Option Progress → Download
  raised : Bytes → Download
  unfinished : Download

-- How the loop over the chunks ends.
pub data Transfer : Type 0 where
  complete : Bytes → Progress → Transfer
  broken : Bytes → Transfer
  still_reading : Transfer

unfoldable pub outcome : Transfer → Download
outcome still_reading = unfinished
outcome (broken file) = raised file
outcome (complete file p) = returned true file (some (finish p))

-- The clock, and what each write to the file does.
module _ (clock : ℕ → ℕ) (writes : ℕ → Write) where
  -- `while 1:` reads chunks, and stops at the first empty one; on fuel, with the index of the read.
  unfoldable pub read_chunks : ℕ → (ℕ → Read) → ℕ → Bytes → Progress → Transfer
  read_chunks zero reads k file p = still_reading
  read_chunks (suc fuel) reads k file p = elim (reads k) [
    | read_failed ↦ broken file
    | received [] ↦ complete file p
    | received (b ∷ bs) ↦ elim (writes k) [
      | part n ↦ broken (file ++ take n (b ∷ bs))
      | whole ↦ elim (update clock (length (b ∷ bs)) p) [
        | none ↦ still_reading
        | some q ↦ read_chunks fuel reads (suc k) (file ++ b ∷ bs) q
      ]
    ]
  ]

  -- The body of the `try`, from the total size on.
  unfoldable pub receive : ℕ → ℕ → (ℕ → Read) → Bytes → Download
  unfolding read_chunks outcome
  receive fuel total reads file = elim (start clock total) [
    | none ↦ unfinished
    | some p ↦ outcome (read_chunks fuel reads 0 file p)
  ]

  unfoldable pub download_to_file : ℕ → Response → Bytes → Download
  unfolding receive
  download_to_file fuel (http_error code) file = returned false file none
  download_to_file fuel other_error file = raised file
  download_to_file fuel (opened missing reads) file = receive fuel 0 reads file
  download_to_file fuel (opened (number total) reads) file = receive fuel total reads file
  download_to_file fuel (opened malformed reads) file = raised file
