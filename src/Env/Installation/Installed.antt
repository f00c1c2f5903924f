-- ===== src/Env/Installation/Installed.antt =====
-- What an installation that returns has done.
use org_muhkuh_tools_flasher.Common.{
  ◌≡◌, refl, sym, subst, ◌∙◌, ap, ap₂, Option, none, some, List, [], ◌∷◌,
}
use org_muhkuh_tools_flasher.Common.Io.{
  Io, ◌>>=◌, ◌>>◌, gets, bind_some, result_is, bind_step, raise-return,
}
use org_muhkuh_tools_flasher.Common.Words.{Word}
use org_muhkuh_tools_flasher.Carriers.System.{World, on_rest}
use org_muhkuh_tools_flasher.Env.Installation.{
  InstallSystem, entered, change_directory, extract_members, extract_tar_gz,
}

-- A step on the rest of the world.
pub on_rest-some :
    {R A : Type 0} (m : Io R A) {a : A} (w v : World R)
    → on_rest m w ≡ (some a, v)
    → m w.rest ≡ (some a, v.rest)
on_rest-some m w v h = ap (λ q. (q.0, q.1.rest)) h

pub on_rest-cwd :
    {R A : Type 0} (m : Io R A) {a : A} (w v : World R) → on_rest m w ≡ (some a, v) → v.cwd ≡ w.cwd
on_rest-cwd m w v h = sym (ap (λ q. q.1.cwd) h)

module _ {R M : Type 0} (sys : InstallSystem R M) where
  -- The members were extracted one after the other.
  pub data AreExtracted (cwd : Word) : List M → R → R → Type 0 where
    done : {r : R} → AreExtracted cwd [] r r
    next :
        {m : M} {ms : List M} {r s t : R}
        → sys.extract_member cwd m r ≡ (some tt, s)
        → AreExtracted cwd ms s t
        → AreExtracted cwd (m ∷ ms) r t

  extract_members-AreExtracted :
      (cwd : Word) (ms : List M) (w v : World R)
      → extract_members sys cwd ms w ≡ (some tt, v)
      → AreExtracted cwd ms w.rest v.rest × (v.cwd ≡ w.cwd)
  unfolding extract_members
  extract_members-AreExtracted cwd [] w v h =
      let same = (result_is h).1 in
      (
        subst (λ (u : World R). AreExtracted cwd [] w.rest u.rest) same done,
        ap (λ (u : World R). u.cwd) (sym same),
      )
  extract_members-AreExtracted cwd (m ∷ ms) w v h =
      let (_, u, f, g) =
        bind_some (on_rest (sys.extract_member cwd m)) (λ _. extract_members sys cwd ms) h in
      let (later, same) = extract_members-AreExtracted cwd ms u v g in
      (
        next (on_rest-some (sys.extract_member cwd m) w u f) later,
        same ∙ on_rest-cwd (sys.extract_member cwd m) w u f,
      )

  -- What `extract_tar_gz` has done: the folder was entered, all members were extracted there, and the old
  -- working directory was entered again.
  pub record IsUnpacked (archive folder : Word) (w v : World R) : Type 0 where
    pub inside : Word
    pub opened : R
    pub members : List M
    pub enters : sys.chdir w.cwd folder w.rest ≡ some inside
    pub opens : sys.open_tar inside archive w.rest ≡ (some members, opened)
    pub extracts : AreExtracted inside members opened v.rest
    pub leaves : sys.chdir inside w.cwd v.rest ≡ some v.cwd

  entered-some :
      (o : Option Word) (w v : World R)
      → entered sys o w ≡ (some tt, v)
      → (o ≡ some v.cwd) × (v.rest ≡ w.rest)
  unfolding entered
  entered-some none w v h = absurd (raise-return h)
  entered-some (some cwd) w v h =
      let same = (result_is h).1 in
      (ap (λ (u : World R). some u.cwd) same, ap (λ (u : World R). u.rest) (sym same))

  change_directory-some :
      (path : Word) (w v : World R)
      → change_directory sys path w ≡ (some tt, v)
      → (sys.chdir w.cwd path w.rest ≡ some v.cwd) × (v.rest ≡ w.rest)
  unfolding change_directory
  change_directory-some path w v h = entered-some (sys.chdir w.cwd path w.rest) w v h

  -- The steps in the folder, and the way back.
  from_inside : Word → Word → Io (World R) Unit
  unfolding ◌>>=◌
  from_inside archive old = do
    cwd ← gets (λ w. w.cwd)
    members ← on_rest (sys.open_tar cwd archive)
    extract_members sys cwd members
    change_directory sys old

  extract_and_leave :
      (old : Word) (members : List M) (x v : World R)
      → (extract_members sys x.cwd members >> change_directory sys old) x ≡ (some tt, v)
      → AreExtracted x.cwd members x.rest v.rest × (sys.chdir x.cwd old v.rest ≡ some v.cwd)
  extract_and_leave old members x v h =
      let (_, y, e, l) =
        bind_some (extract_members sys x.cwd members) (λ _. change_directory sys old) h in
      let (extracts, same) = extract_members-AreExtracted x.cwd members x y e in
      let (leaves, kept) = change_directory-some old y v l in
      (
        subst (AreExtracted x.cwd members x.rest) (sym kept) extracts,
        ap₂ (λ c r. sys.chdir c old r) (sym same) kept ∙ leaves,
      )

  from_inside-IsUnpacked :
      (archive folder : Word) (w u v : World R)
      → sys.chdir w.cwd folder w.rest ≡ some u.cwd
      → u.rest ≡ w.rest
      → from_inside archive w.cwd u ≡ (some tt, v)
      → IsUnpacked archive folder w v
  unfolding from_inside
  from_inside-IsUnpacked archive folder w u v enters kept h =
      let (members, x, o, k) =
        bind_some (on_rest (sys.open_tar u.cwd archive))
          (λ members. extract_members sys u.cwd members >> change_directory sys w.cwd)
          (sym (
              bind_step (gets (λ (y : World R). y.cwd))
                (λ cwd. on_rest (sys.open_tar cwd archive) >>= λ members.
                  extract_members sys cwd members >> change_directory sys w.cwd)
                u refl)
            ∙ h) in
      let there : x.cwd ≡ u.cwd = on_rest-cwd (sys.open_tar u.cwd archive) u x o in
      let (extracts, leaves) =
        extract_and_leave w.cwd members x v
          (ap (λ c. (extract_members sys c members >> change_directory sys w.cwd) x) there ∙ k) in
      record {
        inside = u.cwd;
        opened = x.rest;
        members = members;
        enters = enters;
        opens =
            ap (λ r. sys.open_tar u.cwd archive r) (sym kept)
            ∙ on_rest-some (sys.open_tar u.cwd archive) u x o;
        extracts = subst (λ c. AreExtracted c members x.rest v.rest) there extracts;
        leaves = ap (λ c. sys.chdir c w.cwd v.rest) (sym there) ∙ leaves;
      }

  pub extract_tar_gz-IsUnpacked :
      (archive folder : Word) (w v : World R)
      → extract_tar_gz sys archive folder w ≡ (some tt, v)
      → IsUnpacked archive folder w v
  unfolding extract_tar_gz from_inside
  extract_tar_gz-IsUnpacked archive folder w v h =
      let (_, u, c, g) =
        bind_some (change_directory sys folder) (λ _. from_inside archive w.cwd)
          (sym (
              bind_step (gets (λ (u : World R). u.cwd))
                (λ old. change_directory sys folder >> from_inside archive old) w refl)
            ∙ h) in
      let (enters, kept) = change_directory-some folder w u c in
      from_inside-IsUnpacked archive folder w u v enters kept g
