-- ===== src/SpiFlashes/Laws.antt =====
-- When the table of the SPI flashes is generated, and what it holds then.
use org_muhkuh_tools_flasher.Common.{
  ℕ, ◌≤◌, ◌≡◌, refl, sym, ap, ◌∙◌, subst, inl, inr, Option, some, List, [], length, map, All,
  Option-cases, none-clash, some_unique,
}
use org_muhkuh_tools_flasher.Common.Words.{Word}
use org_muhkuh_tools_flasher.SpiFlashes.Values.{FlashNode}
use org_muhkuh_tools_flasher.SpiFlashes.Entries.{Entry}
use org_muhkuh_tools_flasher.SpiFlashes.Commands.{LayoutMode}
use org_muhkuh_tools_flasher.SpiFlashes.Lines.{flash_lines}
use org_muhkuh_tools_flasher.SpiFlashes.Table.{
  Table, Header, initial, add_flashes, spiflashes_action,
}
use org_muhkuh_tools_flasher.SpiFlashes.Checks.{IsEntry}
use org_muhkuh_tools_flasher.SpiFlashes.Sizes.{
  Fits, sizes_after, sizes_after-Fits, sizes_after-name,
}
use org_muhkuh_tools_flasher.SpiFlashes.Loop.{AreNew, read_flashes, add_flashes_cases}

module _ {N : Type 0} (int : Word → Option N) (len : ℕ → N) where
  abbrev table_result : (N → Word) → (N → Word) → Table N → List Word × Header
  table_result decimal hex table = (
    flash_lines len decimal hex table.flashes,
    record { elements = length table.flashes; sizeof = table.sizes },
  )

  abbrev result : (N → Word) → (N → Word) → List (Entry N × LayoutMode) → List Word × Header
  result decimal hex fs = (
    flash_lines len decimal hex fs,
    record { elements = length fs; sizeof = sizes_after fs (initial {N = N}).sizes },
  )

  -- If the table is generated, each description was read and accepted, no name occurs twice, the
  -- lines are those of all entries in their order, each entry passes the checks (one byte per
  -- single-byte command, ID entries of one size, arrays as long as described, or one byte in place
  -- of none) and fits into the arrays of the header, which has their number and room for the 21
  -- characters of an SFDP name.
  pub spiflashes_action_cases :
      (decimal hex : N → Word) (nodes : List FlashNode) (lines : List Word) (header : Header)
      → spiflashes_action int len decimal hex nodes ≡ some (lines, header)
      → (fs : List (Entry N × LayoutMode)) × (read_flashes int len nodes ≡ some fs)
        × (lines ≡ flash_lines len decimal hex fs)
        × AreNew [] (map (λ (f : Entry N × LayoutMode). f.0.name) fs)
        × All (λ f. IsEntry f.0) fs
        × All (λ f. Fits header.sizeof f.0) fs
        × (header.elements ≡ length fs)
        × (21 ≤ header.sizeof.max_name)
  unfolding spiflashes_action
  spiflashes_action_cases decimal hex nodes lines header e =
      elim (Option-cases (add_flashes int len nodes initial)) [
        | inl n ↦ absurd (none-clash (rw n refl) e)
        | inr (table, t) ↦
            let (fs, rs, new, all, x) = add_flashes_cases int len nodes initial table t in
            let same : Path (List Word × Header) (result decimal hex fs) (lines, header) =
              ap (λ (t : Table N). table_result decimal hex t) (sym x)
              ∙ some_unique (rw t refl) e in
            let headers : (result decimal hex fs).1 ≡ header =
              ap (λ (q : List Word × Header). q.1) same in
            (
              fs,
              rs,
              sym (ap (λ (q : List Word × Header). q.0) same),
              new,
              all,
              subst (λ (h : Header). All (λ f. Fits h.sizeof f.0) fs) headers
                  (sizes_after-Fits fs _),
              sym (ap (λ (h : Header). h.elements) headers),
              subst (λ (h : Header). 21 ≤ h.sizeof.max_name) headers (sizes_after-name fs _),
            )
      ]
