-- ===== src/Storage.antt =====
-- scripts/governance_storage.py with the tests of scripts/governance_store_support.py: a private file
-- is read with checks of what it is, and replaced as a whole. The lock is held around both.
pub mod Names
pub mod Named
pub mod Reading
pub mod Writing
use Prim.Native.Nat.{◌%◌}
use subagent_governance.Base.{
  ℕ, zero, suc, Text, [], take, Option, none, some, Bool, true, false, ◌||◌, not, ◌==◌, leb, length,
}
use subagent_governance.Material.Outside.{FileKind}
use subagent_governance.Material.Files.{is_regular, is_link}

-- What a call of the module raises: FileNotFoundError, another OSError, the codes of storage_error,
-- and PrivateStorageWriteError.
pub data StorageError : Type 0 where
  file_not_found os_failure : StorageError
  symlink not_regular owner_mismatch permissions_unsafe oversized unreadable : StorageError
  write_failed : StorageError

pub data Checked (A : Type 0) : Type 0 where
  refused : StorageError → Checked A
  given : A → Checked A

infixl 5 ◌>>=◌ ◌>>◌
abbrev pub ◌>>=◌ : {A B : Type 0} → Checked A → (A → Checked B) → Checked B
refused e >>= rest = refused e
given a >>= rest = rest a

abbrev pub ◌>>◌ : {B : Type 0} → Checked (Unit {0}) → Checked B → Checked B
first >> rest = first >>= λ done. rest

-- `if not test: raise`
abbrev pub demand : Bool → StorageError → Checked (Unit {0})
demand test e = elim test [ false ↦ refused e | true ↦ given tt ]

-- The parts of os.stat_result that the code reads.
pub record Metadata : Type 0 where
  pub kind : FileKind
  pub owner : ℕ
  pub permissions : ℕ
  pub size : ℕ

-- The platform: no user identity and no permissions on Windows.
pub record Platform : Type 0 where
  pub uid : Option ℕ
  pub is_windows : Bool

module _ (platform : Platform) where
  -- owned_by_current_user
  unfoldable pub owned_by_current_user : Metadata → Bool
  owned_by_current_user m = elim platform.uid [ none ↦ true | some uid ↦ m.owner == uid ]

  -- private_permissions_safe: `mode & 0o077` is the last six bits.
  unfoldable pub private_permissions_safe : Metadata → Bool
  private_permissions_safe m = platform.is_windows || m.permissions % 64 == 0

  -- The checks of a metadata, once by the path and once by the descriptor.
  unfoldable pub check_metadata : Metadata → Checked (Unit {0})
  unfolding owned_by_current_user private_permissions_safe
  check_metadata m = do
    demand (not (is_link m.kind)) StorageError.symlink
    demand (is_regular m.kind) StorageError.not_regular
    demand (owned_by_current_user m) StorageError.owner_mismatch
    demand (private_permissions_safe m) StorageError.permissions_unsafe

-- How a call of the operating system ends.
pub data Answer (A : Type 0) : Type 0 where
  absent failing : Answer A
  answered : A → Answer A

-- A file as it is opened: fstat and the bytes that a read finds.
pub record Opened : Type 0 where
  pub status : Answer Metadata
  pub contents : Answer Text

-- An answer whose FileNotFoundError is passed on; `e` is for the rest of OSError.
abbrev pub or_absent : {A : Type 0} → StorageError → Answer A → Checked A
or_absent e Answer.absent = refused StorageError.file_not_found
or_absent e Answer.failing = refused e
or_absent e (Answer.answered a) = given a

-- An answer of which every OSError becomes `unreadable`.
abbrev pub or_unreadable : {A : Type 0} → Answer A → Checked A
or_unreadable (Answer.answered a) = given a
or_unreadable _ = refused StorageError.unreadable

module _ (platform : Platform) where
  -- The reading behind os.open.
  unfoldable pub read_opened : ℕ → Opened → Checked Text
  unfolding check_metadata
  read_opened max_bytes f = do
    m ← or_unreadable f.status
    check_metadata platform m
    contents ← or_unreadable f.contents
    given (take (suc max_bytes) contents)

  -- read_private_bytes: `found` is what lstat says, and `opened` what os.open gives.
  unfoldable pub read_private_bytes : ℕ → Answer Metadata → Answer Opened → Checked Text
  unfolding check_metadata read_opened
  read_private_bytes max_bytes found opened = do
    m ← or_absent StorageError.os_failure found
    check_metadata platform m
    demand (leb m.size max_bytes) StorageError.oversized
    f ← or_absent StorageError.unreadable opened
    raw ← read_opened max_bytes f
    demand (leb (length raw) max_bytes) StorageError.oversized
    given raw

-- The calls of atomic_write_bytes.
pub data Call : Type 0 where
  mkstemp restrict fdopen write flush replace sync_directory close unlink : Call

-- The file that is replaced, and the temporary file next to it.
pub record Disk : Type 0 where
  pub target : Option Text
  pub temporary : Option Text

-- Which calls raise an OSError, and how much a write that raises has written.
pub record Failures : Type 0 where
  pub fails : Call → Bool
  pub written : ℕ

module _ (failures : Failures) (encoded : Text) where
  -- The calls inside the `try`: whether they were all made, whether the descriptor is still open, and
  -- the disk afterwards. `flush` is for
  -- flush, fsync and the close of the stream.
  unfoldable pub try_write : Disk → Bool × Bool × Disk
  try_write d = elim (failures.fails Call.restrict) [
    | true ↦ (false, true, d)
    | false ↦ elim (failures.fails Call.fdopen) [
      | true ↦ (false, true, d)
      | false ↦ elim (failures.fails Call.write) [
        | true ↦ (false, false, record d { temporary = some (take failures.written encoded) })
        | false ↦ elim (failures.fails Call.flush) [
          | true ↦ (false, false, record d { temporary = some encoded })
          | false ↦ elim (failures.fails Call.replace) [
            | true ↦ (false, false, record d { temporary = some encoded })
            | false ↦ (
              not (failures.fails Call.sync_directory),
              false,
              record { target = some encoded; temporary = none },
            )
          ]
        ]
      ]
    ]
  ]

  -- `temporary.unlink()`, where a file that is not there is no error.
  remove_temporary : Option Text → Checked (Unit {0}) → Disk → Checked (Unit {0}) × Disk
  remove_temporary none result d = (result, d)
  remove_temporary (some bytes) result d = elim (failures.fails Call.unlink) [
    | true ↦ (refused StorageError.os_failure, d)
    | false ↦ (result, record d { temporary = none })
  ]

  abbrev write_result : Bool → Checked (Unit {0})
  write_result true = given tt
  write_result false = refused StorageError.write_failed

  -- The `finally` clause: an open descriptor is closed, and the temporary file is removed. An error
  -- of the close leaves the temporary file.
  finish_write : Bool × Bool × Disk → Checked (Unit {0}) × Disk
  unfolding remove_temporary
  finish_write (done, false, d) = remove_temporary d.temporary (write_result done) d
  finish_write (done, true, d) = elim (failures.fails Call.close) [
    | true ↦ (refused StorageError.os_failure, d)
    | false ↦ remove_temporary d.temporary (write_result done) d
  ]

  -- atomic_write_bytes
  unfoldable pub atomic_write_bytes : Disk → Checked (Unit {0}) × Disk
  unfolding try_write finish_write
  atomic_write_bytes d = elim (failures.fails Call.mkstemp) [
    | true ↦ (refused StorageError.write_failed, d)
    | false ↦ finish_write (try_write (record d { temporary = some [] }))
  ]
