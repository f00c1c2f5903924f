-- ===== src/SpiFlashes/Layout.antt =====
-- The layout of the lines of the SPI flash table.
use org_muhkuh_tools_flasher.Common.{
  drop-length, ℕ, zero, suc, ◌-◌, ◌≤◌, ◌≡◌, refl, ◌∙◌, ap, ◌++◌, length, drop, arith, length-append,
  ltb, Bool-cases, inl, inr, sym, append-nil,
}
use org_muhkuh_tools_flasher.Common.Words.{Word}
use org_muhkuh_tools_flasher.SpiFlashes.Lines.{blanks, indent, template_line}

length-blanks : (n : ℕ) → length (blanks n) ≡ n
unfolding blanks
length-blanks zero = refl
length-blanks (suc n) = ap suc (length-blanks n)

padded :
    (line comment : Word)
    → length line ≤ indent
    → template_line line comment ≡ line ++ blanks (indent - length line) ++ comment
unfolding template_line blanks
padded line comment h = elim (Bool-cases (ltb (length line) indent)) [
  | inl t ↦ rw t refl
  | inr f ↦
      let full : indent - length line ≡ 0 = ground arith in
      let bare : line ++ blanks (indent - length line) ≡ line =
        ap (λ n. line ++ blanks n) full ∙ append-nil line in
      rw f (ap (λ (w : Word). w ++ comment) (sym bare))
]

-- A text that fits in front of column 88 is followed by blanks up to it, and there by the comment.
pub template_line-columns :
    (line comment : Word)
    → length line ≤ indent
    → (template_line line comment ≡ line ++ blanks (indent - length line) ++ comment)
      × (drop indent (template_line line comment) ≡ comment)
unfolding template_line
template_line-columns line comment h =
    let filled : length (line ++ blanks (indent - length line)) ≡ indent = omega (
      arith,
      length-append line (blanks (indent - length line)),
      length-blanks (indent - length line),
    ) in
    (
      padded line comment h,
      ap (drop indent) (padded line comment h) ∙ drop-length indent _ comment (sym filled),
    )
