-- ===== src/Carriers/Returns.antt =====
-- On a system whose operations succeed, every batch returns.
use org_muhkuh_tools_flasher.Common.{◌≡◌, some}
use org_muhkuh_tools_flasher.Common.Words.{Word}
use org_muhkuh_tools_flasher.Carriers.System.{CommandSystem}
use org_muhkuh_tools_flasher.Carriers.Texts.{split_blanks}
use org_muhkuh_tools_flasher.Carriers.{first_word}
use org_muhkuh_tools_flasher.Carriers.Works.{Works}

module _ {R T : Type 0} (sys : CommandSystem R T) (works : Works sys) where
  -- A command has a word, which is its program.
  abbrev pub HasWord : Word → Type 0
  HasWord cmd = (word : Word) × (first_word sys (split_blanks cmd) ≡ some word)
