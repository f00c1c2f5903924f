-- ===== src/Platform/Laws.antt =====
-- What a detected platform holds.
use org_muhkuh_tools_flasher.Common.{
  ◌≡◌, inl, inr, refl, sym, ◌∙◌, false, Option, none, some, some-injective, none-ne-some, subst,
  List, [], ◌∷◌, Bool-cases, Option-cases,
}
use org_muhkuh_tools_flasher.Common.Words.{Word, codes, eq_word, eq_word-eq, strip}
use org_muhkuh_tools_flasher.Platform.{
  Host, Platform, is_32_bit, windows_cpu, getconf_cpu, lscpu_cpu, search_architecture, match_value,
  newer, lsb_lines, both_or_none, detect_distribution, linux_cpu, windows_platform, linux_platform,
  detect_with, detect, detect_here, detect_simple_tools,
}

-- The value of the last line that has the prefix.
pub last_value : Word → List Word → Option Word
last_value prefix [] = none
last_value prefix (line ∷ lines) = newer (last_value prefix lines) (match_value prefix line)

-- No CPU, or one that is not a 32 bit Intel CPU under its own name.
abbrev IsRenamed : Option Word → Type 0
IsRenamed none = Unit
IsRenamed (some w) = is_32_bit w ≡ false

getconf-IsRenamed : (bits : Word) → IsRenamed (getconf_cpu bits)
unfolding getconf_cpu
getconf-IsRenamed bits = elim (Bool-cases (eq_word (strip bits) (codes "32"))) [
  | inl t ↦ rw (t, getconf_cpu, IsRenamed) refl
  | inr f ↦ elim (Bool-cases (eq_word (strip bits) (codes "64"))) [
    | inl t ↦ rw (f, getconf_cpu, IsRenamed) (rw t refl)
    | inr g ↦ rw (f, getconf_cpu, IsRenamed) (rw g tt)
  ]
]

lscpu-IsRenamed : (output : Word) → IsRenamed (lscpu_cpu output)
unfolding lscpu_cpu
lscpu-IsRenamed output = elim (Option-cases (search_architecture output)) [
  | inl e ↦ rw (e, lscpu_cpu, IsRenamed) tt
  | inr (w, e) ↦
      rw (e, lscpu_cpu, IsRenamed)
        (elim (Bool-cases (is_32_bit w)) [ inl t ↦ rw t refl | inr f ↦ rw f f ])
]

prefer-IsRenamed :
    (a b : Option Word)
    → IsRenamed a
    → IsRenamed b
    → IsRenamed (elim a [ some cpu ↦ some cpu | none ↦ b ])
prefer-IsRenamed none b h k = k
prefer-IsRenamed (some w) b h k = h

output-IsRenamed :
    (o : Option Word) → IsRenamed (elim o [ none ↦ none | some output ↦ lscpu_cpu output ])
output-IsRenamed none = tt
output-IsRenamed (some output) = lscpu-IsRenamed output

linux_cpu-IsRenamed : (h : Host) → IsRenamed (linux_cpu h)
unfolding linux_cpu
linux_cpu-IsRenamed h = elim (Option-cases h.getconf_long_bit) [
  | inl e ↦ rw (e, linux_cpu, IsRenamed) tt
  | inr (bits, e) ↦
      rw (e, linux_cpu)
        (prefer-IsRenamed (getconf_cpu bits) _ (getconf-IsRenamed bits) (output-IsRenamed h.lscpu))
]

-- The attributes of a detected platform: on Windows with the version that the copy of the class
-- sets, on Linux with a known CPU and a distribution of both components or none.
pub data IsDetected (windows_version : Option Word) (h : Host) (p : Platform) : Type 0 where
  windows :
      h.system ≡ codes "Windows"
      → p.cpu_architecture ≡ windows_cpu h
      → p.distribution_id ≡ some (codes "windows")
      → p.distribution_version ≡ windows_version
      → p.archive_format ≡ codes "zip"
      → IsDetected windows_version h p
  linux :
      h.system ≡ codes "Linux"
      → (cpu : Word) → p.cpu_architecture ≡ some cpu
      → is_32_bit cpu ≡ false
      → (p.distribution_id, p.distribution_version)
        ≡ both_or_none (p.distribution_id, p.distribution_version)
      → p.archive_format ≡ codes "tar.gz"
      → IsDetected windows_version h p

both_or_none_twice :
    (f : Option Word × Option Word) → both_or_none f ≡ both_or_none (both_or_none f)
both_or_none_twice (none, none) = refl
both_or_none_twice (none, some v) = refl
both_or_none_twice (some i, none) = refl
both_or_none_twice (some i, some v) = refl

both_or_none-detect :
    (lines : List Word) → detect_distribution lines ≡ both_or_none (detect_distribution lines)
unfolding detect_distribution
both_or_none-detect lines = both_or_none_twice (lsb_lines lines (none, none))

linux-IsDetected :
    (v : Option Word) (h : Host) (p : Platform)
    → h.system ≡ codes "Linux"
    → linux_platform h ≡ some p
    → IsDetected v h p
unfolding linux_platform
linux-IsDetected v h p sys e = elim (Option-cases (linux_cpu h)) [
  | inl c ↦ absurd (none-ne-some p (sym (rw (c, linux_platform) refl) ∙ e))
  | inr (cpu, c) ↦ elim (Option-cases h.lsb_release) [
    | inl l ↦ absurd (none-ne-some p (sym (rw (c, linux_platform) (rw l refl)) ∙ e))
    | inr (lines, l) ↦
        subst (IsDetected v h) (some-injective _ p (sym (rw (c, linux_platform) (rw l refl)) ∙ e)) (
          linux sys cpu refl (subst IsRenamed c (linux_cpu-IsRenamed h)) (both_or_none-detect lines)
            refl)
  ]
]

detect_with-IsDetected :
    (v : Option Word) (h : Host) (p : Platform) → detect_with v h ≡ some p → IsDetected v h p
unfolding detect_with windows_platform
detect_with-IsDetected v h p e = elim (Bool-cases (eq_word h.system (codes "Windows"))) [
  | inl t ↦
      subst (IsDetected v h) (some-injective _ p (sym (rw (t, detect_with)) ∙ e))
        (windows (eq_word-eq _ _ t) refl refl refl refl)
  | inr f ↦ elim (Bool-cases (eq_word h.system (codes "Linux"))) [
    | inl t ↦ linux-IsDetected v h p (eq_word-eq _ _ t) (sym (rw (f, detect_with) (rw t refl)) ∙ e)
    | inr g ↦ absurd (none-ne-some p (sym (rw (f, detect_with) (rw g refl)) ∙ e))
  ]
]

pub detect-IsDetected :
    (h : Host) (p : Platform)
    → ((detect h ≡ some p) → IsDetected none h p)
      × ((detect_here h ≡ some p) → IsDetected (some []) h p)
      × ((detect_simple_tools h ≡ some p) → IsDetected (some []) h p)
unfolding detect detect_here detect_simple_tools
detect-IsDetected h p = (
  detect_with-IsDetected none h p,
  detect_with-IsDetected (some []) h p,
  detect_with-IsDetected (some []) h p,
)
