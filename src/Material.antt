-- ===== src/Material.antt =====
-- The second half of scripts/governance_context.py: declared material is read and compared with its
-- baseline.
pub mod Candidate
pub mod Verified
pub mod Head
pub mod Listing
pub mod Outside
pub mod Files
pub mod Git
pub mod Errors
pub mod Unchanged
pub mod WorkingTree
pub mod Commit
use subagent_governance.Base.{
  ℕ, Text, none, Bool, true, false, List, [], ◌∷◌, ◌++◌, leb, length, Result, ok, err, Error,
}
use subagent_governance.Contract.{
  PathKind, Baseline, DeclaredPath, Manifest, VerifiedPath, Verification,
}
use subagent_governance.Contract.Manifests.{validate_context_manifest}
use subagent_governance.Contract.Records.{manifest_record}
use subagent_governance.Contract.Verified.{validate_verification}
use subagent_governance.Material.Outside.{
  World, Timed, pure, raise, call, ◌>>=◌, ◌>>◌, attempt, require, remaining_time,
}
use subagent_governance.Material.Files.{is_regular, is_directory, file_digest}
use subagent_governance.Material.Git.{verify_git}

module _ (world : World) where
  -- One path of a working tree: it stays in the workspace and is a regular file.
  unfoldable pub verify_candidate : Text → DeclaredPath → Text → Timed VerifiedPath
  unfolding file_digest
  verify_candidate root item candidate = do
    require (world.is_inside root candidate) Error.context_verification
    metadata ← call (λ moment. world.stat moment candidate)
    require (is_regular metadata.kind) Error.context_conflict
    digest ← file_digest world candidate none
    pure (record { path = item.path; kind = item.kind; digest = digest })

  unfoldable pub verify_file : Text → DeclaredPath → Timed VerifiedPath
  unfolding verify_candidate remaining_time
  verify_file root item = do
    remaining_time
    candidate ← call (λ moment. ok (world.resolve moment (world.child root item.path)))
    verify_candidate root item candidate

  -- The loop over the paths of a working tree.
  unfoldable pub verify_files : Text → List DeclaredPath → Timed (List VerifiedPath)
  unfolding verify_file
  verify_files root [] = pure []
  verify_files root (item ∷ items) =
      let rest = verify_files root items in
      do verified ← verify_file root item; others ← rest; pure (verified ∷ others)

  unfoldable pub verify_paths_at : Baseline → Text → List DeclaredPath → Timed (List VerifiedPath)
  unfolding verify_files verify_git
  verify_paths_at Baseline.working_tree root paths = verify_files root paths
  verify_paths_at (Baseline.git_commit revision) root paths = verify_git world root revision paths

  -- `if errors: raise ContextVerificationError(…)`
  no_issues : {I : Type 0} → Result (List I) → Timed (Unit {0})
  no_issues (err e) = raise e
  no_issues (ok found) = require (leb (length found) 0) Error.context_verification

  -- _verify_context_manifest, of a manifest of mode `declared`
  unfoldable pub verify_declared : Manifest → Timed Verification
  unfolding validate_context_manifest manifest_record no_issues remaining_time verify_paths_at
      validate_verification
  verify_declared m = do
    no_issues (validate_context_manifest world.is_absolute (manifest_record m))
    remaining_time
    root ← call (λ moment. ok (world.resolve moment m.workspace_root))
    metadata ← call (λ moment. world.stat moment root)
    require (is_directory metadata.kind) Error.context_conflict
    verified ← verify_paths_at m.baseline root m.required_paths
    let result : Verification = record {
      workspace_root = root;
      baseline = m.baseline;
      required_paths = verified;
    }
    no_issues (ok (validate_verification world.is_absolute m result))
    remaining_time
    pure result

  -- The `except` clauses of verify_context_manifest.
  unfoldable pub verification_failed : Error → Timed Verification
  verification_failed Error.not_found = raise Error.context_conflict
  verification_failed Error.not_a_directory = raise Error.context_conflict
  verification_failed Error.is_a_directory = raise Error.context_conflict
  verification_failed Error.os_error = raise Error.context_verification
  verification_failed e = raise e

  -- verify_context_manifest. `looks` is how often the code may look at the clock before the deadline.
  unfoldable pub verify_context_manifest : ℕ → Manifest → Result Verification
  unfolding verify_declared verification_failed
  verify_context_manifest looks m = (attempt (verify_declared m) verification_failed looks).0
