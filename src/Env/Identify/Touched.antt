-- ===== src/Env/Identify/Touched.antt =====
-- Which chips `identify_connected_netx` touches.
use org_muhkuh_tools_flasher.Common.{
  ◌≡◌, refl, subst, Bool, true, false, Option, none, some, List, [], ◌∷◌, All, none-clash,
  some_unique, if◌then◌else◌,
}
use org_muhkuh_tools_flasher.Common.Io.{Io, ◌>>=◌, from_option, Keeps, bind-Keeps, if-Keeps}
use org_muhkuh_tools_flasher.Jasonixer.{Chip}
use org_muhkuh_tools_flasher.Env.Masks.{Mask, text, is_asserted, apply_masks}
use org_muhkuh_tools_flasher.Env.Masks.Filter.{
  keeps, keep_all, apply_masks-keep_all, apply_masks-text,
}
use org_muhkuh_tools_flasher.Env.Identify.{
  Flasher, detect_all, detect_listed, identify_connected_netx,
}

kept-All :
    (p : Chip → Bool) (chip : Chip) (chips : List Chip) (b : Bool)
    → p chip ≡ b
    → All (λ c. p c ≡ true) chips
    → All (λ c. p c ≡ true) (if b then chip ∷ chips else chips)
kept-All p chip chips true t a = (t, a)
kept-All p chip chips false f a = a

keep_all-All : (p : Chip → Bool) (chips : List Chip) → All (λ c. p c ≡ true) (keep_all p chips)
unfolding keep_all
keep_all-All p [] = tt
keep_all-All p (chip ∷ chips) =
    kept-All p chip (keep_all p chips) (p chip) refl (keep_all-All p chips)

-- What the masks leave passes them.
masked-All :
    (chips kept : List Chip) (black white : Mask)
    → is_asserted black ≡ true
    → is_asserted white ≡ true
    → apply_masks chips black white ≡ some kept
    → All (λ c. keeps black white c ≡ true) kept
masked-All chips kept black white ab aw e =
    subst (All (λ c. keeps black white c ≡ true))
      (some_unique (apply_masks-keep_all chips black white ab aw) e)
      (keep_all-All (keeps black white) chips)

pub apply_masks-All :
    (chips kept : List Chip) (black white : Mask)
    → apply_masks chips black white ≡ some kept
    → All (λ c. keeps black white c ≡ true) kept
apply_masks-All chips kept (text (c ∷ w)) white e =
    absurd (none-clash (apply_masks-text chips white c w).0 e)
apply_masks-All chips kept black (text (c ∷ w)) e =
    absurd (none-clash (apply_masks-text chips black c w).1 e)
apply_masks-All chips kept black white e = masked-All chips kept _ _ refl refl e

-- The masks as a step: what follows sees chips that pass them.
masked-Keeps :
    {W A : Type 0} (holds : W → Type 0) (kept : Option (List Chip)) (f : List Chip → Io W A)
    → ((chips : List Chip) → kept ≡ some chips → Keeps holds (f chips))
    → Keeps holds (from_option kept >>= f)
unfolding ◌>>=◌
masked-Keeps holds none f k w h = h
masked-Keeps holds (some chips) f k w h = k chips refl w h

module _ {W : Type 0} (flasher : Flasher W) (holds : W → Type 0) (black white : Mask)
    (listing : Keeps holds flasher.list_interfaces)
    (detection : (c : Chip)
      → keeps black white c ≡ true
      → Keeps holds (flasher.detect_netx c)) where
  detect_all-Keeps :
      (chips : List Chip)
      → All (λ c. keeps black white c ≡ true) chips
      → Keeps holds (detect_all flasher chips)
  unfolding detect_all
  detect_all-Keeps [] a = λ w h. h
  detect_all-Keeps (chip ∷ chips) (k, a) = bind-Keeps holds _ _ (detection chip k) (λ carrier.
      if-Keeps holds carrier.failed _ _ (detect_all-Keeps chips a) (
        bind-Keeps holds _ _ (λ w h. h)
          (λ c. bind-Keeps holds _ _ (detect_all-Keeps chips a) (λ cs w h. h))))

  detect_listed-Keeps : (chips : List Chip) → Keeps holds (detect_listed flasher black white chips)
  unfolding detect_listed
  detect_listed-Keeps [] = λ w h. h
  detect_listed-Keeps (chip ∷ chips) =
      masked-Keeps holds (apply_masks (chip ∷ chips) black white) _
        (λ kept e. detect_all-Keeps kept (apply_masks-All (chip ∷ chips) kept black white e))

  -- What "list_interfaces" keeps, and "detect_netx" on each chip whose port the masks allow, that
  -- `identify_connected_netx` keeps, also if it raises.
  pub identify_connected_netx-Keeps : Keeps holds (identify_connected_netx flasher white black)
  unfolding identify_connected_netx
  identify_connected_netx-Keeps = bind-Keeps holds _ _ listing (λ carrier.
      if-Keeps holds carrier.failed _ _ (λ w h. h)
        (bind-Keeps holds _ _ (λ w h. h) detect_listed-Keeps))
