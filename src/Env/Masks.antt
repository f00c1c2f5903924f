-- ===== src/Env/Masks.antt =====
-- `apply_whitemask_blacklist`: the chips whose ports pass the white list and the black list.
pub mod Filter
use org_muhkuh_tools_flasher.Common.{
  Bool, true, false, ◌&&◌, ◌||◌, not, Option, none, some, List, [], ◌∷◌, ◌++◌, map, if◌then◌else◌,
}
use org_muhkuh_tools_flasher.Common.Words.{Word, codes, is_infix}
use org_muhkuh_tools_flasher.Jasonixer.{Chip}

-- The arguments `list_black` and `list_white`: `None`, a list, or a single text, as the option of
-- the command line gives it.
pub data Mask : Type 0 where
  absent : Mask
  list : List Word → Mask
  text : Word → Mask

-- `if mask:`
abbrev pub is_set : Mask → Bool
is_set absent = false
is_set (list []) = false
is_set (list (w ∷ ws)) = true
is_set (text []) = false
is_set (text (c ∷ w)) = true

-- `if mask: assert type(mask) is list`
abbrev pub is_asserted : Mask → Bool
is_asserted (text (c ∷ w)) = false
is_asserted _ = true

abbrev pub entries : Mask → List Word
entries (list ws) = ws
entries _ = []

-- A row of the working structure `carrier`.
pub record Row : Type 0 where
  pub netx : Chip
  pub white : Bool
  pub black : Bool
  pub reason_white : Word
  pub reason_black : Word

abbrev new_row : Chip → Row
new_row netx = record {
  netx = netx;
  white = false;
  black = true;
  reason_white = [];
  reason_black = [];
}

-- The inner loop over the white list, with its `else`.
white_row : List Word → Row → Row
white_row [] row = record row { reason_white = codes "not in white list" }
white_row (w ∷ ws) row =
    if is_infix w row.netx.port then record row { white = true } else white_row ws row

-- The inner loop over the black list.
black_row : List Word → Row → Row
black_row [] row = row
black_row (b ∷ bs) row =
    if is_infix b row.netx.port
    then record row { black = false; reason_black = b }
    else black_row bs row

-- The last loop, which collects the chips that were thrown by neither list.
collect : Bool → Bool → List Row → List Chip
collect has_white has_black [] = []
collect has_white has_black (row ∷ rows) =
    let rest = collect has_white has_black rows in
    if has_white && not row.white
    then rest
    else if not (has_black && not row.black)
    then row.netx ∷ rest
    else rest

-- The loops over the carrier, one after the other.
mark_white : Mask → List Row → List Row
unfolding white_row
mark_white white carrier = if is_set white then map (white_row (entries white)) carrier else carrier

mark_black : Mask → List Row → List Row
unfolding black_row
mark_black black carrier = if is_set black then map (black_row (entries black)) carrier else carrier

-- `none` is a failed assertion.
unfoldable pub apply_masks : List Chip → Mask → Mask → Option (List Chip)
unfolding mark_white mark_black collect
apply_masks chips black white =
    if not (is_set black || is_set white)
    then some chips
    else if is_asserted black && is_asserted white
    then some (
        collect (is_set white) (is_set black)
          (mark_black black (mark_white white (map new_row chips))))
    else none
