-- ===== src/CliArgs/Laws.antt =====
-- The command line of a platform.
use org_muhkuh_tools_flasher.Common.{
  ◌≡◌, inl, inr, refl, sym, ◌∙◌, Option, none, some, List, [], ◌∷◌, if◌then◌else◌, arith,
  Option-cases, ◌&&◌,
}
use org_muhkuh_tools_flasher.Common.Words.{Word, codes, eq_word}
use org_muhkuh_tools_flasher.Platform.{Host, Platform, detect, windows_cpu}
use org_muhkuh_tools_flasher.Platform.Laws.{IsDetected, detect-IsDetected}
use org_muhkuh_tools_flasher.CliArgs.{Target, platform_name, parse, to_jonchki_args}

-- Whatever the arguments, the platform ID of a parsed target is made of its three components.
pub parse-platform_name :
    (host : Platform) (args : List Word) (t : Target)
    → parse host args ≡ some t
    → t.platform_id ≡ platform_name t.distribution_id t.distribution_version t.cpu_architecture
unfolding parse
parse-platform_name host [] t e = ground arith
parse-platform_name host (a ∷ []) t e = ground arith
parse-platform_name host (a ∷ (b ∷ [])) t e = ground arith
parse-platform_name host (a ∷ (b ∷ (c ∷ []))) t e = ground arith
parse-platform_name host (a ∷ (b ∷ (c ∷ (d ∷ args)))) t e = ground arith

-- An independent reader of the command line of jonchki.
pub read_args : List (Option Word) → Option (Word × Option Word × Option Word)
read_args (some a ∷ (some id ∷ (some b ∷ (some c ∷ (cpu ∷ []))))) =
    if eq_word a (codes "--distribution-id")
      && eq_word b (codes "--empty-distribution-version")
      && eq_word c (codes "--cpu-architecture")
    then some (id, none, cpu)
    else none
read_args (some a ∷ (some id ∷ (some b ∷ (some version ∷ (some c ∷ (cpu ∷ [])))))) =
    if eq_word a (codes "--distribution-id")
      && eq_word b (codes "--distribution-version")
      && eq_word c (codes "--cpu-architecture")
    then some (id, some version, cpu)
    else none
read_args _ = none

-- The command line of a target with a distribution ID is read back to its ID, its version or the
-- lack of one, and its CPU.
pub read_args-to_jonchki_args :
    (t : Target) (id : Word)
    → t.distribution_id ≡ some id
    → read_args (to_jonchki_args t) ≡ some (id, t.distribution_version, t.cpu_architecture)
unfolding to_jonchki_args read_args
read_args-to_jonchki_args t id e = elim (Option-cases t.distribution_version) [
  | inl v ↦ rw (e, to_jonchki_args, v) refl
  | inr (version, v) ↦ rw (e, to_jonchki_args, v) refl
]

-- On a Windows host with a known CPU a call with no arguments gives the target of a call with
-- "windows" and that CPU.
pub parse_on_windows :
    (h : Host) (p : Platform) (cpu : Word)
    → h.system ≡ codes "Windows"
    → detect h ≡ some p
    → windows_cpu h ≡ some cpu
    → parse p [] ≡ parse p (codes "windows" ∷ cpu ∷ [])
unfolding parse platform_name
parse_on_windows h p cpu sys e c = elim ((detect-IsDetected h p).0 e) [
  | IsDetected.windows _ a b v _ ↦ rw (a, b, v, c)
  | IsDetected.linux s _ _ _ _ _ ↦ absurd (differ (sym sys ∙ s))
]
  where
    differ : codes "Windows" ≡ codes "Linux" → ⊥
    differ w = ground arith
