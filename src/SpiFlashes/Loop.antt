-- ===== src/SpiFlashes/Loop.antt =====
-- The loop over the flash descriptions against the list of those that are read and accepted.
use org_muhkuh_tools_flasher.Common.{
  ℕ, ◌≡◌, refl, sym, ap, ◌∙◌, subst, inl, inr, false, Option, some, List, [], ◌∷◌, ◌++◌, map, All,
  append_assoc, append-nil, Option-cases, Bool-cases, none-clash, some_unique, ◌>>=◌,
}
use org_muhkuh_tools_flasher.Common.Words.{Word}
use org_muhkuh_tools_flasher.SpiFlashes.Values.{FlashNode}
use org_muhkuh_tools_flasher.SpiFlashes.Entries.{Entry, read_entry, check_entry}
use org_muhkuh_tools_flasher.SpiFlashes.Commands.{LayoutMode}
use org_muhkuh_tools_flasher.SpiFlashes.Table.{Table, is_member, add_flash, add_flashes}
use org_muhkuh_tools_flasher.SpiFlashes.Checks.{IsEntry, accepted-IsEntry}
use org_muhkuh_tools_flasher.SpiFlashes.Sizes.{sizes_after}

-- No text occurs twice, or in a list of earlier ones.
abbrev pub AreNew : List Word → List Word → Type 0
AreNew before [] = Unit
AreNew before (w ∷ ws) = (is_member w before ≡ false) × AreNew (before ++ w ∷ []) ws

module _ {N : Type 0} where
  -- The table after more entries.
  abbrev pub extend : Table N → List (Entry N × LayoutMode) → Table N
  extend table fs = record {
    sizes = sizes_after fs table.sizes;
    names = table.names ++ map (λ (f : Entry N × LayoutMode). f.0.name) fs;
    flashes = table.flashes ++ fs;
  }

module _ {N : Type 0} (int : Word → Option N) (len : ℕ → N) where
  -- The description is read and accepted.
  unfoldable pub read_flash : FlashNode → Option (Entry N × LayoutMode)
  read_flash node = do entry ← read_entry int (len 0) node; check_entry int (len 0) entry

  unfoldable pub read_flashes : List FlashNode → Option (List (Entry N × LayoutMode))
  unfolding read_flash
  read_flashes [] = some []
  read_flashes (node ∷ nodes) = do
    flash ← read_flash node
    flashes ← read_flashes nodes
    some (flash ∷ flashes)

  add_flash_cases :
      (node : FlashNode) (table next : Table N)
      → add_flash int len node table ≡ some next
      → (f : Entry N × LayoutMode) × (read_flash node ≡ some f)
        × (is_member f.0.name table.names ≡ false)
        × IsEntry f.0
        × (next ≡ extend table (f ∷ []))
  unfolding add_flash read_flash
  add_flash_cases node table next e = elim (Option-cases (read_entry int (len 0) node)) [
    | inl n ↦ absurd (none-clash (rw n refl) e)
    | inr (read, r) ↦ elim (Bool-cases (is_member read.name table.names)) [
      | inl m ↦ absurd (none-clash (rw (r, m) refl) e)
      | inr m ↦ elim (Option-cases (check_entry int (len 0) read)) [
        | inl n ↦ absurd (none-clash (rw (r, m, n) refl) e)
        | inr ((entry, mode), c) ↦
            let (is, name) = accepted-IsEntry int (len 0) node read entry mode r c in
            ((entry, mode), rw r c, rw name m, is, sym (some_unique (rw (r, m, c) refl) e))
      ]
    ]
  ]

  add_flash-some :
      (node : FlashNode) (table : Table N) (f : Entry N × LayoutMode)
      → read_flash node ≡ some f
      → is_member f.0.name table.names ≡ false
      → add_flash int len node table ≡ some (extend table (f ∷ []))
  unfolding add_flash read_flash
  add_flash-some node table (entry, mode) e m = elim (Option-cases (read_entry int (len 0) node)) [
    | inl n ↦ absurd (none-clash (rw n refl) e)
    | inr (read, r) ↦
        let c : check_entry int (len 0) read ≡ some (entry, mode) = sym (rw r refl) ∙ e in
        let (is, name) = accepted-IsEntry int (len 0) node read entry mode r c in
        let new : is_member read.name table.names ≡ false =
          subst (λ w. is_member w table.names ≡ false) name m in
        rw (r, new, c) refl
  ]

  extend_nil : (table : Table N) → extend table [] ≡ table
  extend_nil table = rw (append-nil table.names, append-nil table.flashes) refl

  extend-append :
      (table : Table N) (f : Entry N × LayoutMode) (fs : List (Entry N × LayoutMode))
      → extend (extend table (f ∷ [])) fs ≡ extend table (f ∷ fs)
  extend-append table f fs =
      rw
        (
          append_assoc table.names (f.0.name ∷ [])
              (map (λ (g : Entry N × LayoutMode). g.0.name) fs),
          append_assoc table.flashes (f ∷ []) fs,
        )
        refl

  pub add_flashes_cases :
      (nodes : List FlashNode) (table last : Table N)
      → add_flashes int len nodes table ≡ some last
      → (fs : List (Entry N × LayoutMode)) × (read_flashes nodes ≡ some fs)
        × AreNew table.names (map (λ (f : Entry N × LayoutMode). f.0.name) fs)
        × All (λ f. IsEntry f.0) fs
        × (last ≡ extend table fs)
  unfolding add_flashes read_flashes
  add_flashes_cases [] table last e =
      ([], refl, tt, tt, sym (extend_nil table ∙ some_unique refl e))
  add_flashes_cases (node ∷ nodes) table last e =
      elim (Option-cases (add_flash int len node table)) [
        | inl n ↦ absurd (none-clash (rw n refl) e)
        | inr (next, a) ↦
            let (f, r, new, is, x) = add_flash_cases node table next a in
            let (fs, rs, news, all, y) = add_flashes_cases nodes next last (sym (rw a refl) ∙ e) in
            (
              f ∷ fs,
              rw (r, rs) refl,
              (
                new,
                subst
                    (λ (t : Table N).
                      AreNew t.names (map (λ (g : Entry N × LayoutMode). g.0.name) fs))
                    x news,
              ),
              (is, all),
              y ∙ ap (λ t. extend t fs) x ∙ extend-append table f fs,
            )
      ]

  pub add_flashes-some :
      (nodes : List FlashNode) (table : Table N) (fs : List (Entry N × LayoutMode))
      → read_flashes nodes ≡ some fs
      → AreNew table.names (map (λ (f : Entry N × LayoutMode). f.0.name) fs)
      → add_flashes int len nodes table ≡ some (extend table fs)
  unfolding add_flashes read_flashes
  add_flashes-some [] table fs e a =
      subst (λ (l : List (Entry N × LayoutMode)). some table ≡ some (extend table l))
        (some_unique refl e) (ap some (sym (extend_nil table)))
  add_flashes-some (node ∷ nodes) table fs e a = elim (Option-cases (read_flash node)) [
    | inl n ↦ absurd (none-clash (rw n refl) e)
    | inr (f, r) ↦ elim (Option-cases (read_flashes nodes)) [
      | inl n ↦ absurd (none-clash (rw (r, n) refl) e)
      | inr (gs, rs) ↦
          let same : f ∷ gs ≡ fs = some_unique (rw (r, rs) refl) e in
          let (new, news) =
            subst
              (λ (l : List (Entry N × LayoutMode)).
                AreNew table.names (map (λ (g : Entry N × LayoutMode). g.0.name) l))
              (sym same) a in
          let step = add_flash-some node table f r new in
          let loop = add_flashes-some nodes (extend table (f ∷ [])) gs rs news in
          rw step (loop ∙ ap some (extend-append table f gs ∙ ap (extend table) same))
    ]
  ]
