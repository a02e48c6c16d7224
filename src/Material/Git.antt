-- ===== src/Material/Git.antt =====
-- run_git, _git_candidate and _verify_git of scripts/governance_context.py.
use subagent_governance.Material.Listing.{
  TreeEntry, algorithm_of, is_blob, is_plain_mode, is_selected, parse_records, rstrip_newlines,
  verify_paths,
}
use subagent_governance.Base.{
  Text, codes, strip, split, text_eq, Dict, Option, none, some, Bool, true, false, List, [], ◌∷◌,
  ◌++◌, ◌||◌, not, map, if◌then◌else◌, leb, length, Result, ok, err, Error,
}
use subagent_governance.Contract.{DeclaredPath, VerifiedPath}
use subagent_governance.Material.Outside.{
  Metadata, Process, World, Timed, pure, raise, call, ◌>>=◌, ◌>>◌, attempt, require, remaining_time,
}
use subagent_governance.Material.Files.{is_regular, is_directory, is_link, file_digest}

unfoldable pub process_result : Process → Result Text
process_result (Process.finished output) = ok output
process_result Process.timed_out = err Error.context_verification
process_result Process.failed = err Error.context_verification

module _ (world : World) where
  -- run_git
  unfoldable pub run_git : List Text → Timed Text
  unfolding process_result remaining_time
  run_git arguments = do
    remaining_time
    output ← call (λ moment. process_result (world.git moment arguments))
    remaining_time
    pure output

  -- The loop over the parts of the path: none of them may be a link.
  unfoldable pub walk_parts : Text → Option Metadata → List Text → Timed (Text × Option Metadata)
  unfolding remaining_time
  walk_parts candidate last [] = pure (candidate, last)
  walk_parts candidate last (part ∷ parts) = do
    remaining_time
    metadata ← call (λ moment. world.lstat moment (world.child candidate part))
    require (not (is_link metadata.kind)) Error.context_verification
    walk_parts (world.child candidate part) (some metadata) parts

  -- `metadata` after the loop: splitting a path leaves one part at least.
  abbrev pub last_of : Option Metadata → Timed Metadata
  last_of none = raise Error.type_error
  last_of (some metadata) = pure metadata

  unfoldable pub candidate_failed : Error → Timed Text
  candidate_failed Error.not_found = raise Error.context_conflict
  candidate_failed Error.not_a_directory = raise Error.context_conflict
  candidate_failed Error.is_a_directory = raise Error.context_verification
  candidate_failed Error.os_error = raise Error.context_verification
  candidate_failed e = raise e

  -- A directory must be readable.
  unfoldable pub check_tree : Bool → Text → Timed (Unit {0})
  unfolding remaining_time
  check_tree true candidate = pure tt
  check_tree false candidate = do call (λ moment. world.scandir moment candidate); remaining_time

  -- The body of the `try` of _git_candidate.
  unfoldable pub find_candidate : Text → Text → TreeEntry → Timed Text
  unfolding walk_parts split check_tree is_blob
  find_candidate root relative entry = do
    found ← walk_parts root none (split b'/' relative)
    metadata ← last_of (found.1)
    require (is_regular metadata.kind || is_directory metadata.kind) Error.context_verification
    require (if is_blob entry then is_regular metadata.kind else is_directory metadata.kind)
        Error.context_conflict
    check_tree (is_blob entry) (found.0)
    pure (found.0)

  -- _git_candidate
  unfoldable pub git_candidate : Text → Text → TreeEntry → Timed Text
  unfolding find_candidate candidate_failed
  git_candidate root relative entry = attempt (find_candidate root relative entry) candidate_failed

  -- The content of a blob against its object name.
  unfoldable pub check_blob : Bool → Text → Text → Timed (Unit {0})
  unfolding file_digest algorithm_of
  check_blob false candidate oid = pure tt
  check_blob true candidate oid = do
    digest ← file_digest world candidate (some (algorithm_of oid))
    require (text_eq digest oid) Error.context_conflict

  unfoldable pub check_entry : Bool → Text → Text → TreeEntry → Timed (Unit {0})
  unfolding is_plain_mode git_candidate check_blob is_blob
  check_entry false root path entry = pure tt
  check_entry true root path entry = do
    require (is_plain_mode entry) Error.context_verification
    candidate ← git_candidate root path entry
    check_blob (is_blob entry) candidate entry.object_id

  -- The loop over the entries of the listing.
  unfoldable pub check_entries : Text → List DeclaredPath → Dict TreeEntry → Timed (Unit {0})
  unfolding is_selected check_entry remaining_time
  check_entries root paths [] = pure tt
  check_entries root paths ((path, entry) ∷ entries) =
      let rest = check_entries root paths entries in
      do remaining_time; check_entry (is_selected paths path) root path entry; rest

  -- `HEAD` is the revision of the baseline.
  unfoldable pub check_head : Text → Timed (Unit {0})
  unfolding run_git strip
  check_head revision = do
    head ← run_git (codes "rev-parse" ∷ codes "--verify" ∷ codes "HEAD" ∷ [])
    require (text_eq (strip head) revision) Error.context_conflict

  abbrev pub listing_of : Text → List DeclaredPath → List Text
  listing_of revision paths =
      codes "ls-tree"
      ∷ codes "-r"
      ∷ codes "-t"
      ∷ codes "-z"
      ∷ codes "--full-tree"
      ∷ revision
      ∷ codes "--"
      ∷ map (λ item. item.path) paths

  abbrev pub status_of : List DeclaredPath → List Text
  status_of paths =
      codes "status"
      ∷ codes "--porcelain=v1"
      ∷ codes "--untracked-files=all"
      ∷ codes "--"
      ∷ map (λ item. item.path) paths

  -- The end of _verify_git: nothing is staged, changed or added, and HEAD has not moved.
  unfoldable pub check_clean : Text → List DeclaredPath → Timed (Unit {0})
  unfolding run_git check_head
  check_clean revision paths = do
    changes ← run_git (status_of paths)
    require (leb (length changes) 0) Error.context_conflict
    check_head revision

  -- The part of _verify_git behind the listing.
  unfoldable pub verify_entries :
      Text → Text → List DeclaredPath → Dict TreeEntry → Timed (List VerifiedPath)
  unfolding verify_paths check_entries check_clean
  verify_entries root revision paths entries = do
    verified ← verify_paths entries paths
    check_entries root paths entries
    check_clean revision paths
    pure verified

  unfoldable pub verify_listing : Text → Text → List DeclaredPath → Timed (List VerifiedPath)
  unfolding check_head run_git parse_records verify_entries split
  verify_listing root revision paths = do
    check_head revision
    listing ← run_git (listing_of revision paths)
    entries ← parse_records [] (split 0 listing)
    verify_entries root revision paths entries

  unfoldable pub after_root : Text → Text → List DeclaredPath → Text → Timed (List VerifiedPath)
  unfolding run_git verify_listing
  after_root root revision paths top = do
    require (text_eq top root) Error.context_verification
    commit ← run_git (codes "cat-file" ∷ codes "-e" ∷ (revision ++ codes "^{commit}") ∷ [])
    verify_listing root revision paths

  -- _verify_git
  unfoldable pub verify_git : Text → Text → List DeclaredPath → Timed (List VerifiedPath)
  unfolding run_git rstrip_newlines after_root
  verify_git root revision paths = do
    top ← run_git (codes "rev-parse" ∷ codes "--show-toplevel" ∷ [])
    resolved ← call (λ moment. ok (world.resolve moment (rstrip_newlines top)))
    after_root root revision paths resolved
