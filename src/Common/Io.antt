-- ===== src/Common/Io.antt =====
-- Steps that change a state and may raise an exception.
use org_muhkuh_tools_flasher.Common.{
  Bool, true, false, if◌then◌else◌, ◌⊎◌, inl, inr, Option, none, some, ◌≡◌, refl, sym, ap, ◌∙◌,
  none-ne-some, some-injective,
}

-- A result, or `none` for an exception, with the state that is left.
abbrev pub Io : Type 0 → Type 0 → Type 0
Io W A = W → Option A × W

module _ {W : Type 0} where
  chain : {A B : Type 0} → (A → Io W B) → Option A × W → Option B × W
  chain f (none, w) = (none, w)
  chain f (some a, w) = f a w

  infixl 10 ◌>>=◌
  unfoldable pub ◌>>=◌ : {A B : Type 0} → Io W A → (A → Io W B) → Io W B
  unfolding chain
  (m >>= f) w = chain f (m w)

  infixl 10 ◌>>◌
  abbrev pub ◌>>◌ : {A B : Type 0} → Io W A → Io W B → Io W B
  m >> n = m >>= λ _. n

  abbrev pub return : {A : Type 0} → A → Io W A
  return a w = (some a, w)

  abbrev pub raise : {A : Type 0} → Io W A
  raise w = (none, w)

  abbrev pub modify : (W → W) → Io W Unit
  modify f w = (some tt, f w)

  abbrev pub gets : {A : Type 0} → (W → A) → Io W A
  gets f w = (some (f w), w)

  abbrev pub from_option : {A : Type 0} → Option A → Io W A
  from_option o w = (o, w)

  -- A command that was found, or what another step finds.
  unfoldable pub or_else : {A : Type 0} → Option A → Io W (Option A) → Io W (Option A)
  or_else (some a) m w = (some (some a), w)
  or_else none m w = m w

  chain-some :
      {A B : Type 0} (f : A → Io W B) (b : B) (r : Option A × W) (v : W)
      → chain f r ≡ (some b, v)
      → (a : A) × (u : W) × (r ≡ (some a, u)) × (f a u ≡ (some b, v))
  unfolding chain
  chain-some f b (none, w) v e = absurd (none-ne-some b (ap (λ (q : Option _ × W). q.0) e))
  chain-some f b (some a, w) v e = (a, w, refl, e)

  -- A step that gave a result: its parts gave one too.
  pub bind_some :
      {A B : Type 0} (m : Io W A) (f : A → Io W B) {b : B} {w v : W}
      → (m >>= f) w ≡ (some b, v)
      → (a : A) × (u : W) × (m w ≡ (some a, u)) × (f a u ≡ (some b, v))
  unfolding ◌>>=◌
  bind_some m f {b = b} {w = w} {v = v} e = chain-some f b (m w) v e

  -- What a step that does not fail returns.
  pub result_is :
      {A : Type 0} {a b : A} {w v : W}
      → Path (Option A × W) (some a, w) (some b, v)
      → (a ≡ b) × (w ≡ v)
  result_is {A = A} {a = a} {b = b} e =
      (some-injective a b (ap (λ (q : Option A × W). q.0) e), ap (λ (q : Option A × W). q.1) e)

  -- A step under a test, with no value if the test fails.
  pub guard_some :
      {A : Type 0} (b : Bool) (m : Io W (Option A)) {a : A} {w v : W}
      → (if b then m else return none) w ≡ (some (some a), v)
      → (b ≡ true) × (m w ≡ (some (some a), v))
  guard_some true m e = (refl, e)
  guard_some {A = A} false m {a = a} e = absurd (none-ne-some a (result_is e).0)

  pub or_else-some :
      {A : Type 0} (o : Option A) (m : Io W (Option A)) {a : A} {w v : W}
      → or_else o m w ≡ (some (some a), v)
      → ((o ≡ some a) × (w ≡ v)) ⊎ (m w ≡ (some (some a), v))
  unfolding or_else
  or_else-some (some b) m e = let (x, y) = result_is e in inl (x, y)
  or_else-some none m e = inr e

  pub guard_none :
      {A : Type 0} (b : Bool) (m : Io W (Option A)) {w v : W}
      → (if b then m else return none) w ≡ (some none, v)
      → ((b ≡ false) × (w ≡ v)) ⊎ ((b ≡ true) × (m w ≡ (some none, v)))
  guard_none true m e = inr (refl, e)
  guard_none false m e = inl (refl, (result_is e).1)

  pub or_else-none :
      {A : Type 0} (o : Option A) (m : Io W (Option A)) {w v : W}
      → or_else o m w ≡ (some none, v)
      → m w ≡ (some none, v)
  unfolding or_else
  or_else-none (some b) m e = absurd (none-ne-some b (sym (result_is e).0))
  or_else-none none m e = e

  -- A step that keeps what holds of the state, whether it raises or not.
  abbrev pub Keeps : {A : Type 0} → (W → Type 0) → Io W A → Type 0
  Keeps holds m = (w : W) → holds w → holds (m w).1

  chain-Keeps :
      {A B : Type 0} (holds : W → Type 0) (f : A → Io W B) (r : Option A × W)
      → ((a : A) → Keeps holds (f a))
      → holds r.1
      → holds (chain f r).1
  unfolding chain
  chain-Keeps holds f (none, w) l h = h
  chain-Keeps holds f (some a, w) l h = l a w h

  pub bind-Keeps :
      {A B : Type 0} (holds : W → Type 0) (m : Io W A) (f : A → Io W B)
      → Keeps holds m
      → ((a : A) → Keeps holds (f a))
      → Keeps holds (m >>= f)
  unfolding ◌>>=◌
  bind-Keeps holds m f k l w h = chain-Keeps holds f (m w) l (k w h)

  pub if-Keeps :
      {A : Type 0} (holds : W → Type 0) (b : Bool) (m n : Io W A)
      → Keeps holds m
      → Keeps holds n
      → Keeps holds (if b then m else n)
  if-Keeps holds true m n k l = k
  if-Keeps holds false m n k l = l

  -- A step that leaves a state which is related to the one before, whether it raises or not.
  abbrev pub Moves : {A : Type 0} → (W → W → Type 0) → Io W A → Type 0
  Moves related m = (w : W) → related w (m w).1

  chain-Moves :
      {A B : Type 0} (related : W → W → Type 0) (f : A → Io W B) (v : W) (r : Option A × W)
      → ((u x y : W) → related u x → related x y → related u y)
      → ((a : A) → Moves related (f a))
      → related v r.1
      → related v (chain f r).1
  unfolding chain
  chain-Moves related f v (none, w) trans l h = h
  chain-Moves related f v (some a, w) trans l h = trans v w (f a w).1 h (l a w)

  pub bind-Moves :
      {A B : Type 0} (related : W → W → Type 0) (m : Io W A) (f : A → Io W B)
      → ((u x y : W) → related u x → related x y → related u y)
      → Moves related m
      → ((a : A) → Moves related (f a))
      → Moves related (m >>= f)
  unfolding ◌>>=◌
  bind-Moves related m f trans k l w = chain-Moves related f w (m w) trans l (k w)

  -- The rest of a do block after a step whose result is known.
  pub bind_step :
      {A B : Type 0} (m : Io W A) (f : A → Io W B) {a : A} (w : W) {v : W}
      → m w ≡ (some a, v)
      → (m >>= f) w ≡ f a v
  unfolding ◌>>=◌ chain
  bind_step m f w e = rw e refl

  -- A step that gives a result from every state, with what holds of the result.
  abbrev pub Yields : {A : Type 0} → (A → Type 0) → Io W A → Type 0
  Yields {A = A} holds m = (w : W) → (a : A) × (v : W) × (m w ≡ (some a, v)) × holds a

  pub bind-Yields :
      {A B : Type 0} (holds : A → Type 0) (later : B → Type 0) (m : Io W A) (f : A → Io W B)
      → Yields holds m
      → ((a : A) → holds a → Yields later (f a))
      → Yields later (m >>= f)
  bind-Yields holds later m f k l w =
      let (a, v, e, h) = k w in let (b, u, g, i) = l a h v in (b, u, bind_step m f w e ∙ g, i)

  pub return-Yields : {A : Type 0} (holds : A → Type 0) (a : A) → holds a → Yields holds (return a)
  return-Yields holds a h w = (a, w, refl, h)

  -- A result that is known, of a step that gives one.
  pub from_option-Yields :
      {A : Type 0} (holds : A → Type 0) {o : Option A} (a : A)
      → o ≡ some a
      → holds a
      → Yields holds (from_option o)
  from_option-Yields holds a e h w = (a, w, ap (λ (q : Option _). (q, w)) e, h)

  chain-bind :
      {A B C : Type 0} (f : A → Io W B) (g : B → Io W C) (r : Option A × W)
      → chain g (chain f r) ≡ chain (λ a. f a >>= g) r
  unfolding chain ◌>>=◌
  chain-bind f g (none, w) = refl
  chain-bind f g (some a, w) = refl

  pub bind_assoc :
      {A B C : Type 0} (m : Io W A) (f : A → Io W B) (g : B → Io W C) (w : W)
      → ((m >>= f) >>= g) w ≡ (m >>= λ a. f a >>= g) w
  unfolding ◌>>=◌
  bind_assoc m f g w = chain-bind f g (m w)

  chain_cong :
      {A B : Type 0} (f g : A → Io W B) (r : Option A × W)
      → ((a : A) (w : W) → f a w ≡ g a w)
      → chain f r ≡ chain g r
  unfolding chain
  chain_cong f g (none, w) h = refl
  chain_cong f g (some a, w) h = h a w

  pub bind_cong :
      {A B : Type 0} (m : Io W A) (f g : A → Io W B) (w : W)
      → ((a : A) (w : W) → f a w ≡ g a w)
      → (m >>= f) w ≡ (m >>= g) w
  unfolding ◌>>=◌
  bind_cong m f g w h = chain_cong f g (m w) h

  pub return_bind : {A B : Type 0} (a : A) (f : A → Io W B) (w : W) → (return a >>= f) w ≡ f a w
  unfolding ◌>>=◌ chain
  return_bind a f w = refl

  pub bind_same :
      {A B : Type 0} (m n : Io W A) (f : A → Io W B) (w : W) → m w ≡ n w → (m >>= f) w ≡ (n >>= f) w
  unfolding ◌>>=◌
  bind_same m n f w e = ap (chain f) e

  -- An exception is no result.
  pub raise-return : {A : Type 0} {a : A} {w v : W} → ¬ Path (Option A × W) (none, w) (some a, v)
  raise-return {A = A} {a = a} e = none-ne-some a (ap (λ (q : Option A × W). q.0) e)
