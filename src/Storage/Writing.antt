-- ===== src/Storage/Writing.antt =====
-- The replacement of a private file by atomic_write_bytes of governance_storage.py is atomic.
use subagent_governance.Base.{Text, none, some, ◌≡◌, ◌⊎◌, arith}
use subagent_governance.Storage.{
  Checked, given, Disk, Failures, try_write, remove_temporary, finish_write, atomic_write_bytes,
}

module _ (failures : Failures) (encoded : Text) where
  -- A disk after the calls: the file is what it was or what was to be written, and where all calls
  -- were made it is what was to be written, with no temporary file.
  abbrev pub IsAtomic : Disk → Checked (Unit {0}) → Disk → Type 0
  IsAtomic d result d' =
      ((d'.target ≡ d.target) ⊎ (d'.target ≡ some encoded))
      × (result ≡ given tt → (d'.target ≡ some encoded) × (d'.temporary ≡ none))

  -- Whatever calls of the operating system fail, atomic_write_bytes leaves the file with the bytes it
  -- had or with all of the new ones; where it returns, the file has the new bytes and no temporary
  -- file is left.
  pub atomic_write_bytes-IsAtomic :
      (d : Disk)
      → IsAtomic d
          (atomic_write_bytes failures encoded d).0
          (atomic_write_bytes failures encoded d).1
  unfolding atomic_write_bytes try_write finish_write remove_temporary
  atomic_write_bytes-IsAtomic d = ground arith
