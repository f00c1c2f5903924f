-- ===== src/Download/Tests.antt =====
-- Downloads at concrete responses.
use org_muhkuh_tools_flasher.Common.{ℕ, zero, suc, ◌≡◌, refl, arith, [], ◌∷◌}
use org_muhkuh_tools_flasher.Progress.{start, update, fresh, print_line}
use org_muhkuh_tools_flasher.Download.{
  number, malformed, Read, received, Write, whole, part, opened, raised, unfinished,
  download_to_file,
}
use org_muhkuh_tools_flasher.Download.Laws.{unwritten, Ended, download_to_file-opened}

abbrev still : ℕ → ℕ
still n = 0

-- Two chunks, and the end.
abbrev reads : ℕ → Read
reads zero = received (1 ∷ 2 ∷ 3 ∷ [])
reads (suc zero) = received (4 ∷ 5 ∷ [])
reads (suc (suc n)) = received []

-- The disk is full after the first byte of the second chunk.
abbrev writes : ℕ → Write
writes zero = whole
writes (suc n) = part 1

disk_full :
    download_to_file still writes 3 (opened (number 5) reads) [] ≡ raised (1 ∷ 2 ∷ 3 ∷ 4 ∷ [])
unfolding download_to_file start update fresh print_line
disk_full = refl

-- A server that sends for ever.
endless :
    download_to_file still (λ k. whole) 3 (opened (number 5) (λ k. received (7 ∷ []))) []
    ≡ unfinished
unfolding download_to_file start update fresh print_line
endless = refl

download_to_file-opened_example :
    Ended still writes reads
      (unwritten (4 ∷ []))
      5
      []
      (1 ∷ 2 ∷ 3 ∷ [])
      (download_to_file still writes 3 (opened (number 5) reads) [])
download_to_file-opened_example =
    download_to_file-opened still writes reads (unwritten (4 ∷ [])) (number 5) 1 3 []
      (1 ∷ 2 ∷ 3 ∷ []) differ (1, 2 ∷ 3 ∷ [], [], refl, refl, refl, refl)
      (4, 5 ∷ [], 1, refl, refl, refl) (omega arith)
  where
    differ : number 5 ≡ malformed → ⊥
    differ e = cc
