-- ===== src/Env/Masks/Filter.antt =====
-- The two masks are one filter on the ports.
use org_muhkuh_tools_flasher.Common.{
  ◌≡◌, refl, sym, ◌∙◌, Bool, true, false, ◌&&◌, ◌||◌, not, none, some, List, [], ◌∷◌, map,
  if◌then◌else◌, arith, Bool-cases, ap, inl, inr, ℕ,
}
use org_muhkuh_tools_flasher.Common.Words.{Word, is_infix}
use org_muhkuh_tools_flasher.Jasonixer.{Chip}
use org_muhkuh_tools_flasher.Env.Masks.{
  Mask, absent, list, text, is_set, is_asserted, entries, Row, new_row, white_row, black_row,
  collect, apply_masks,
}

-- Some entry of the list is part of the port.
pub mentions : List Word → Chip → Bool
mentions [] chip = false
mentions (w ∷ ws) chip = is_infix w chip.port || mentions ws chip

-- A chip is kept if no white list is set or some entry of it is part of the port, and no entry of
-- the black list is part of the port.
pub keeps : Mask → Mask → Chip → Bool
keeps black white chip =
    (not (is_set white) || mentions (entries white) chip) && not (mentions (entries black) chip)

unfoldable pub keep_all : (Chip → Bool) → List Chip → List Chip
keep_all p [] = []
keep_all p (chip ∷ chips) = let rest = keep_all p chips in if p chip then chip ∷ rest else rest

white_row_lem :
    (ws : List Word) (row : Row)
    → ((white_row ws row).white ≡ (row.white || mentions ws row.netx))
      × ((white_row ws row).netx ≡ row.netx)
      × ((white_row ws row).black ≡ row.black)
unfolding white_row mentions
white_row_lem [] row = ground arith
white_row_lem (w ∷ ws) row = ground (arith, white_row_lem ws row)

black_row_lem :
    (bs : List Word) (row : Row)
    → ((black_row bs row).black ≡ (row.black && not (mentions bs row.netx)))
      × ((black_row bs row).netx ≡ row.netx)
      × ((black_row bs row).white ≡ row.white)
unfolding black_row mentions
black_row_lem [] row = ground arith
black_row_lem (b ∷ bs) row = ground (arith, black_row_lem bs row)

keep_all-true :
    (p : Chip → Bool) (chips : List Chip) → ((c : Chip) → p c ≡ true) → keep_all p chips ≡ chips
unfolding keep_all
keep_all-true p [] h = refl
keep_all-true p (c ∷ chips) h = rw (h c) (ap (λ (l : List Chip). c ∷ l) (keep_all-true p chips h))

mentions-entries : (m : Mask) (chip : Chip) → is_set m ≡ false → mentions (entries m) chip ≡ false
unfolding mentions
mentions-entries absent chip h = refl
mentions-entries (list []) chip h = refl
mentions-entries (list (w ∷ ws)) chip h = absurd (true-false h)
  where
    true-false : true ≡ false → ⊥
    true-false e = cc
mentions-entries (text w) chip h = refl

-- A row after both loops, by the tests on the masks and their entries.
mark : Bool → Bool → List Word → List Word → Row → Row
mark true true ws bs row = black_row bs (white_row ws row)
mark true false ws bs row = white_row ws row
mark false true ws bs row = black_row bs row
mark false false ws bs row = row

module _ (ws bs : List Word) (c : Chip) where
  mark-netx : (hw hb : Bool) → (mark hw hb ws bs (new_row c)).netx ≡ c
  unfolding mark
  mark-netx true true =
      ground (arith, white_row_lem ws (new_row c), black_row_lem bs (white_row ws (new_row c)))
  mark-netx true false = (white_row_lem ws (new_row c)).1
  mark-netx false true = (black_row_lem bs (new_row c)).1
  mark-netx false false = refl

  mark-white : (hb : Bool) → not (mark true hb ws bs (new_row c)).white ≡ not (mentions ws c)
  unfolding mark
  mark-white true =
      ap not ((black_row_lem bs (white_row ws (new_row c))).2 ∙ (white_row_lem ws (new_row c)).0)
  mark-white false = ap not (white_row_lem ws (new_row c)).0

  mark-black : (hw : Bool) → (mark hw true ws bs (new_row c)).black ≡ not (mentions bs c)
  unfolding mark
  mark-black true =
      (black_row_lem bs (white_row ws (new_row c))).0
      ∙ rw ((white_row_lem ws (new_row c)).1, (white_row_lem ws (new_row c)).2)
  mark-black false = (black_row_lem bs (new_row c)).0

pick_both :
    (a b : Bool) (x y : List Chip)
    → (if not a then y else if not (not (not b)) then x else y) ≡ (if a && not b then x else y)
pick_both true true x y = refl
pick_both true false x y = refl
pick_both false b x y = refl

pick_white : (a : Bool) (x y : List Chip) → (if not a then y else x) ≡ (if a && true then x else y)
pick_white true x y = refl
pick_white false x y = refl

pick_black :
    (b : Bool) (x y : List Chip) → (if not (not (not b)) then x else y) ≡ (if not b then x else y)
pick_black true x y = refl
pick_black false x y = refl

-- The last loop over marked rows is the filter.
collect-mark :
    (hw hb : Bool) (ws bs : List Word) (chips : List Chip)
    → (hb ≡ false → (c : Chip) → mentions bs c ≡ false)
    → collect hw hb (map (λ c. mark hw hb ws bs (new_row c)) chips)
      ≡ keep_all (λ c. (not hw || mentions ws c) && not (mentions bs c)) chips
unfolding collect keep_all
collect-mark hw hb ws bs [] h = refl
collect-mark true true ws bs (c ∷ chips) h =
    rw
      (
        collect-mark true true ws bs chips h,
        mark-white ws bs c true,
        mark-black ws bs c true,
        mark-netx ws bs c true true,
      )
      (pick_both (mentions ws c) (mentions bs c) _ _)
collect-mark true false ws bs (c ∷ chips) h =
    rw
      (
        collect-mark true false ws bs chips h,
        mark-white ws bs c false,
        h refl c,
        mark-netx ws bs c true false,
      )
      (pick_white (mentions ws c) _ _)
collect-mark false true ws bs (c ∷ chips) h =
    rw
      (
        collect-mark false true ws bs chips h,
        mark-black ws bs c false,
        mark-netx ws bs c false true,
      )
      (pick_black (mentions bs c) _ _)
collect-mark false false ws bs (c ∷ chips) h =
    rw (collect-mark false false ws bs chips h, h refl c, mark-netx ws bs c false false) refl

carrier-mark :
    (hw hb : Bool) (ws bs : List Word) (chips : List Chip)
    → (if hb
        then map
            (black_row bs)
            (if hw then map (white_row ws) (map new_row chips) else map new_row chips)
        else if hw
        then map (white_row ws) (map new_row chips)
        else map new_row chips)
      ≡ map (λ c. mark hw hb ws bs (new_row c)) chips
unfolding mark
carrier-mark true true ws bs [] = refl
carrier-mark true true ws bs (c ∷ chips) =
    ap (λ (l : List Row). black_row bs (white_row ws (new_row c)) ∷ l)
      (carrier-mark true true ws bs chips)
carrier-mark true false ws bs [] = refl
carrier-mark true false ws bs (c ∷ chips) =
    ap (λ (l : List Row). white_row ws (new_row c) ∷ l) (carrier-mark true false ws bs chips)
carrier-mark false true ws bs [] = refl
carrier-mark false true ws bs (c ∷ chips) =
    ap (λ (l : List Row). black_row bs (new_row c) ∷ l) (carrier-mark false true ws bs chips)
carrier-mark false false ws bs [] = refl
carrier-mark false false ws bs (c ∷ chips) =
    ap (λ (l : List Row). new_row c ∷ l) (carrier-mark false false ws bs chips)

-- With masks that are lists or are not set, in the order of the chips exactly those are returned
-- whose port has an entry of the white list as a part, if a white list is set, and no entry of the
-- black list.
pub apply_masks-keep_all :
    (chips : List Chip) (black white : Mask)
    → is_asserted black ≡ true
    → is_asserted white ≡ true
    → apply_masks chips black white ≡ some (keep_all (keeps black white) chips)
unfolding apply_masks keeps
apply_masks-keep_all chips black white ab aw = elim (Bool-cases (is_set black || is_set white)) [
  | inl t ↦
      rw (t, ab, aw)
        (ap some (
          ap (collect (is_set white) (is_set black))
            (carrier-mark (is_set white) (is_set black) (entries white) (entries black) chips)
          ∙ collect-mark (is_set white) (is_set black) (entries white) (entries black) chips
              (λ f c. mentions-entries black c f)))
  | inr f ↦ rw f (ap some (sym (keep_all-true (keeps black white) chips (kept f))))
]
  where
    kept : (is_set black || is_set white) ≡ false → (c : Chip) → keeps black white c ≡ true
    kept f c = ground (arith, mentions-entries black c)

-- A text that is not empty in place of a list of one mask is a failed assertion, whatever the
-- other mask is.
pub apply_masks-text :
    (chips : List Chip) (other : Mask) (c : ℕ) (w : Word)
    → (apply_masks chips (text (c ∷ w)) other ≡ none)
      × (apply_masks chips other (text (c ∷ w)) ≡ none)
unfolding apply_masks
apply_masks-text chips absent c w = (refl, refl)
apply_masks-text chips (list []) c w = (refl, refl)
apply_masks-text chips (list (v ∷ vs)) c w = (refl, refl)
apply_masks-text chips (text []) c w = (refl, refl)
apply_masks-text chips (text (d ∷ v)) c w = (refl, refl)
