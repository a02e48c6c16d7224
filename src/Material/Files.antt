-- ===== src/Material/Files.antt =====
-- _file_digest of scripts/governance_context.py: a regular file is hashed, and a change while it is
-- read is noticed.
use subagent_governance.Base.{
  ℕ, Text, Option, none, some, Bool, true, false, List, [], ◌∷◌, ◌&&◌, ◌||◌, not, ◌==◌, Result,
  Error,
}
use subagent_governance.Material.Outside.{
  FileKind, Metadata, Handle, Algorithm, World, Timed, pure, raise, call, ◌>>=◌, ◌>>◌, attempt,
  require, remaining_time,
}

-- stat.S_ISREG, S_ISDIR and S_ISLNK
abbrev pub is_regular : FileKind → Bool
is_regular FileKind.regular = true
is_regular _ = false

abbrev pub is_directory : FileKind → Bool
is_directory FileKind.directory = true
is_directory _ = false

abbrev pub is_link : FileKind → Bool
is_link FileKind.link = true
is_link _ = false

-- `_file_identity(a) == _file_identity(b)`
unfoldable pub same_identity : Bool → Metadata → Metadata → Bool
same_identity include_ctime a b =
    a.device == b.device
    && (a.inode == b.inode
        && (a.size == b.size
            && (a.modified == b.modified && (not include_ctime || a.changed == b.changed))))

-- FileNotFoundError, NotADirectoryError and IsADirectoryError
abbrev pub is_absence : Error → Bool
is_absence Error.not_found = true
is_absence Error.not_a_directory = true
is_absence Error.is_a_directory = true
is_absence _ = false

-- OSError and its subclasses
abbrev pub is_os_error : Error → Bool
is_os_error Error.os_error = true
is_os_error e = is_absence e

-- The loop of the reads: the last one finds the end of the file.
unfoldable pub read_chunks : Result (Unit {0}) → List Text → Timed (Unit {0})
unfolding remaining_time
read_chunks ending [] = do remaining_time; call (λ moment. ending); remaining_time
read_chunks ending (c ∷ cs) =
    let rest = read_chunks ending cs in do remaining_time; remaining_time; rest

module _ (world : World) where
  -- `digest.hexdigest()`; a Git object has a header with its size.
  unfoldable pub digest_of : Option Algorithm → ℕ → List Text → Text
  digest_of none size chunks = world.hash Algorithm.sha256 chunks
  digest_of (some algorithm) size chunks = world.hash algorithm (world.size_header size ∷ chunks)

  -- The part behind the reads: the file and its path are looked at once more.
  unfoldable pub finish_reading : Text → Option Algorithm → Handle → Metadata → Timed Text
  unfolding same_identity digest_of
  finish_reading path algorithm handle before = do
    after ← call (λ moment. handle.after)
    current ← call (λ moment. world.stat moment path)
    require (is_regular current.kind) Error.context_conflict
    require (same_identity true before after && same_identity (not world.is_windows) after current)
        Error.context_verification
    pure (digest_of algorithm before.size handle.chunks)

  unfoldable pub read_handle : Text → Option Algorithm → Handle → Timed Text
  unfolding read_chunks finish_reading
  read_handle path algorithm handle = do
    before ← call (λ moment. handle.before)
    require (is_regular before.kind) Error.context_conflict
    read_chunks handle.ending handle.chunks
    finish_reading path algorithm handle before

  -- The body of the `try`.
  unfoldable pub read_file : Text → Option Algorithm → Timed Text
  unfolding read_handle
  read_file path algorithm = do
    handle ← call (λ moment. world.open_file moment path)
    read_handle path algorithm handle

  -- What the second look at the path may raise.
  unfoldable pub recheck_failed : Error → Timed Metadata
  recheck_failed Error.not_found = raise Error.context_conflict
  recheck_failed Error.not_a_directory = raise Error.context_conflict
  recheck_failed Error.is_a_directory = raise Error.context_verification
  recheck_failed Error.os_error = raise Error.context_verification
  recheck_failed Error.context_verification = raise Error.context_verification
  recheck_failed Error.context_conflict = raise Error.context_verification
  recheck_failed e = raise e

  unfoldable pub look_again : Text → Timed Metadata
  unfolding remaining_time
  look_again path = do
    remaining_time
    found ← call (λ moment. world.lstat moment path)
    remaining_time
    pure found

  -- The `except OSError` clause: the path is looked at once more, without following a link.
  unfoldable pub recheck : Text → Timed Text
  unfolding recheck_failed look_again
  recheck path = do
    current ← attempt (look_again path) recheck_failed
    require (is_regular current.kind || is_link current.kind) Error.context_conflict
    raise Error.context_verification

  unfoldable pub reading_failed : Text → Error → Timed Text
  unfolding recheck
  reading_failed path Error.not_found = raise Error.context_conflict
  reading_failed path Error.not_a_directory = raise Error.context_conflict
  reading_failed path Error.is_a_directory = raise Error.context_conflict
  reading_failed path Error.os_error = recheck path
  reading_failed path e = raise e

  -- _file_digest
  unfoldable pub file_digest : Text → Option Algorithm → Timed Text
  unfolding remaining_time read_file reading_failed
  file_digest path algorithm = do
    remaining_time
    digest ← attempt (read_file path algorithm) (reading_failed path)
    remaining_time
    pure digest
