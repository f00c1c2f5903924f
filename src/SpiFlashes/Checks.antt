-- ===== src/SpiFlashes/Checks.antt =====
-- What the entries of the SPI flash table fulfil.
use org_muhkuh_tools_flasher.Common.{
  ℕ, ◌≡◌, refl, sym, ap, ◌∙◌, subst, ◌⊎◌, inl, inr, Bool, true, false, ◌&&◌, Option, some, List, [],
  ◌∷◌, length, arith, All, Option-cases, none-clash, some_unique, false≢true, Bool-cases,
}
use org_muhkuh_tools_flasher.Common.Words.{Word}
use org_muhkuh_tools_flasher.SpiFlashes.Values.{FlashNode}
use org_muhkuh_tools_flasher.SpiFlashes.Entries.{
  Entry, all_length, read_entry, fill, fill_array, check_entry, passes,
}
use org_muhkuh_tools_flasher.SpiFlashes.Commands.{
  Command, is_optional, single_byte_commands, id_entries, id_send, id_mask, id_magic, LayoutMode,
  layout_mode,
}

-- Each command of one byte has one byte, the ID entries have the same size, and an array is as long
-- as the description says, or one byte in place of none.
pub record IsEntry {N : Type 0} (entry : Entry N) : Type 0 where
  pub single : All (λ c. length (entry.arrays c) ≡ 1) single_byte_commands
  pub same_mask : length (entry.arrays id_mask) ≡ length (entry.arrays id_send)
  pub same_magic : length (entry.arrays id_magic) ≡ length (entry.arrays id_send)
  pub id_length : length (entry.arrays id_send) ≡ entry.read_length id_send
  pub lengths :
      (c : Command)
      → (length (entry.arrays c) ≡ entry.read_length c)
        ⊎ ((entry.read_length c ≡ 0) × (length (entry.arrays c) ≡ 1))

all_length-All :
    {N : Type 0} (n : ℕ) (arrays : Command → List N) (cs : List Command)
    → all_length n arrays cs ≡ true
    → All (λ c. length (arrays c) ≡ n) cs
unfolding all_length
all_length-All n arrays [] h = tt
all_length-All n arrays (c ∷ cs) h = (ground arith, all_length-All n arrays cs (ground arith))

and_true : (a b : Bool) → (a && b) ≡ true → (a ≡ true) × (b ≡ true)
and_true true b h = (refl, h)
and_true false b h = absurd (false≢true h)

passes-All :
    {N : Type 0} (arrays : Command → List N)
    → passes arrays ≡ true
    → All (λ c. length (arrays c) ≡ 1) single_byte_commands
      × All (λ c. length (arrays c) ≡ length (arrays id_send)) id_entries
unfolding passes
passes-All arrays h =
    let (a, b) =
      and_true (all_length 1 arrays single_byte_commands)
        (all_length (length (arrays id_send)) arrays id_entries) h in
    (all_length-All 1 arrays single_byte_commands a, all_length-All _ arrays id_entries b)

module _ {N : Type 0} (int : Word → Option N) (empty : N) where
  fill_array-length :
      (optional : Bool) (ns : List N)
      → (length (fill_array int empty optional ns) ≡ length ns)
        ⊎ ((length ns ≡ 0) × (length (fill_array int empty optional ns) ≡ 1))
  unfolding fill_array
  fill_array-length true [] = inr (refl, refl)
  fill_array-length false [] = inl refl
  fill_array-length optional (n ∷ ns) = inl refl

  fill_array_required : (ns : List N) → fill_array int empty false ns ≡ ns
  unfolding fill_array
  fill_array_required [] = refl
  fill_array_required (n ∷ ns) = refl

  read_entry-length :
      (node : FlashNode) (entry : Entry N)
      → read_entry int empty node ≡ some entry
      → (c : Command) → entry.read_length c ≡ length (entry.arrays c)
  unfolding read_entry
  read_entry-length node entry e c = ground arith

  abbrev pub filled : Entry N → Entry N
  filled entry = record entry { arrays = fill int empty entry.arrays }

  -- What an entry has passed if it is accepted.
  pub check_entry_cases :
      (read entry : Entry N) (mode : LayoutMode)
      → check_entry int empty read ≡ some (entry, mode)
      → (passes (filled read).arrays ≡ true)
        × (filled read ≡ entry)
        × (layout_mode read.mode ≡ some mode)
  unfolding check_entry
  check_entry_cases read entry mode e = elim (Bool-cases (passes (filled read).arrays)) [
    | inr f ↦ absurd (none-clash (rw f refl) e)
    | inl t ↦ elim (Option-cases (layout_mode read.mode)) [
      | inl n ↦ absurd (none-clash (rw (t, n) refl) e)
      | inr (m, l) ↦
          let pair : Path (Entry N × LayoutMode) (filled read, m) (entry, mode) =
            some_unique (rw (t, l) refl) e in
          (
            t,
            ap (λ (q : Entry N × LayoutMode). q.0) pair,
            l ∙ ap (λ (q : Entry N × LayoutMode). some q.1) pair,
          )
    ]
  ]

  filled-IsEntry :
      (read : Entry N)
      → ((c : Command) → read.read_length c ≡ length (read.arrays c))
      → passes (filled read).arrays ≡ true
      → IsEntry (filled read)
  unfolding fill
  filled-IsEntry read r p =
      let q = passes-All (filled read).arrays p in
      record {
        single = q.0;
        same_mask = q.1.1.0;
        same_magic = q.1.1.1.0;
        id_length = ap length (fill_array_required (read.arrays id_send)) ∙ sym (r id_send);
        lengths = λ c. elim (fill_array-length (is_optional c) (read.arrays c)) [
          | inl e ↦ inl (omega (arith, e, r c))
          | inr (z, o) ↦ inr (omega (arith, z, r c), o)
        ];
      }

  -- An entry that was read and accepted.
  pub accepted-IsEntry :
      (node : FlashNode) (read entry : Entry N) (mode : LayoutMode)
      → read_entry int empty node ≡ some read
      → check_entry int empty read ≡ some (entry, mode)
      → IsEntry entry × (entry.name ≡ read.name)
  accepted-IsEntry node read entry mode r c =
      let (p, same, _) = check_entry_cases read entry mode c in
      (
        subst IsEntry same (filled-IsEntry read (read_entry-length node read r) p),
        sym (ap (λ (e : Entry N). e.name) same),
      )
