-- ===== src/TestCases/Data.antt =====
-- The random test data: `generate_randome_file_by_size_and_name`, and the steps before the tests.
use org_muhkuh_tools_flasher.Common.{ℕ, ◌*◌, Option, none, some, ◌∷◌, ◌++◌, ltb, if◌then◌else◌}
use org_muhkuh_tools_flasher.Common.Io.{Io, ◌>>=◌, ◌>>◌, raise, from_option}
use org_muhkuh_tools_flasher.Common.Words.{Word, codes}
use org_muhkuh_tools_flasher.Files.{
  Place, Node, directory, file, Disk, lookup, attempt, remove, write,
}
use org_muhkuh_tools_flasher.Logfiles.{temporary, working}
use org_muhkuh_tools_flasher.Dyntest.{Size, bytes, text, Test}

-- `os.urandom(size)`: a text raises.
module _ {B : Type 0} (urandom : ℕ → B) where
  unfoldable pub write_limited : Place → ℕ → Io (Disk B) Unit
  unfolding write
  write_limited place n = if ltb (1024 * 1024 * 200) n then raise else write place (urandom n)

  -- More than 200 MiB is refused; in Python 2 every text is more.
  unfoldable pub generate_randome_file : Place → Size → Io (Disk B) Unit
  unfolding attempt remove write_limited ◌>>=◌
  generate_randome_file place (text w) = attempt (remove place) >> raise
  generate_randome_file place (bytes n) = attempt (remove place) >> write_limited place n

  unfoldable pub contents : Option (Node B) → Option B
  contents none = none
  contents (some directory) = none
  contents (some (file b)) = some b

  -- `shutil.copy` of a file to a folder.
  unfoldable pub copy_to : Word → Place → Place → Io (Disk B) Unit
  unfolding contents lookup write ◌>>=◌
  copy_to name folder target d =
      (do
        data_read ← from_option (contents (lookup d.nodes (name ∷ folder)))
        write (name ∷ target) data_read)
        d

  abbrev pub file_name : Test → Word → Word
  file_name t ending = codes "test_" ++ t.class_name ++ ending

  -- `pre_test_step` of the standard tests and of the hash test, with the size of the test, which its
  -- constructor and `init_params` set.
  unfoldable pub pre_test_step : Place → Test → Size → Io (Disk B) Unit
  unfolding generate_randome_file copy_to ◌>>=◌
  pre_test_step root t size = do
    generate_randome_file (file_name t (codes "_writefile_to_netx.bin") ∷ working root) size
    copy_to (file_name t (codes "_writefile_to_netx.bin")) (working root) (temporary root)
