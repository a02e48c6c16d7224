-- ===== src/Bundle/Staging.antt =====
-- stage_runtime_bundle of scripts/runtime_bundle.py: the listed files are copied to a new directory,
-- compared, and the copy is verified; a copy that fails is removed again.
use subagent_governance.Base.{
  Text, text_eq, Bool, true, false, List, [], ◌∷◌, ◌&&◌, ◌||◌, not, is_some, if◌then◌else◌, Result,
  ok, err, Error, guard, ◌>>=◌, ◌>>◌, ◌==◌,
}
use subagent_governance.Storage.{Platform}
use subagent_governance.Bundle.Paths.{path_parts}
use subagent_governance.Bundle.{
  Node, Root, Digesting, ordinary_directory, ordinary_file, runtime_files, bundle_digest,
  verify_runtime_bundle,
}

-- What the run meets: the directory above the target, whether something stands at the target before,
-- how the calls of mkdir, of the copying of each file and of rmtree end, and the target as it stands
-- after them.
pub record Copying : Type 0 where
  pub parent : Node
  pub is_present : Bool
  pub mkdir : Result (Unit {0})
  pub copied : Text → Result (Unit {0})
  pub target : Root
  pub removed : Result (Unit {0})

-- The result of a run, and whether something stands at the target afterwards.
pub record Staged : Type 0 where
  pub result : Result Text
  pub is_left : Bool

abbrev pub same_file : Node → Node → Bool
same_file a b = text_eq a.contents b.contents && a.permissions == b.permissions

module _ (platform : Platform) (digesting : Digesting) (source : Root) (run : Copying) where
  -- The loop over the listed files.
  unfoldable pub copy_files : List Text → Result (Unit {0})
  unfolding ordinary_file path_parts
  copy_files [] = ok tt
  copy_files (relative ∷ files) =
      let rest = copy_files files in
      let origin = source.node (path_parts relative) in
      let destination = run.target.node (path_parts relative) in
      do
        run.copied relative
        ordinary_file platform destination
        guard (text_eq origin.contents destination.contents) Error.runtime_error
        guard (origin.permissions == destination.permissions) Error.runtime_error
        rest

  -- The body of the `try`.
  unfoldable pub copy_and_verify : List Text → Result Text
  unfolding copy_files bundle_digest verify_runtime_bundle
  copy_and_verify files = do
    copy_files files
    source_digest ← bundle_digest platform digesting source
    target_digest ← verify_runtime_bundle platform digesting run.target
    guard (text_eq source_digest target_digest) Error.runtime_error
    ok target_digest

  abbrev exists_there : Bool
  exists_there = is_some (run.target.node []).kind

  abbrev removing : Error → Result (Unit {0}) → Staged
  removing e (ok done) = record { result = err e; is_left = false }
  removing e (err d) = record { result = err d; is_left = true }

  -- The `except BaseException`.
  unfoldable pub undo : Result Text → Staged
  undo (ok digest) = record { result = ok digest; is_left = true }
  undo (err e) =
      if exists_there && not (run.target.node []).is_symlink
      then removing e run.removed
      else record { result = err e; is_left = exists_there || (run.target.node []).is_symlink }

  -- The part before the `try`.
  unfoldable pub prepare_target : Result (List Text)
  unfolding runtime_files ordinary_directory
  prepare_target = do
    files ← runtime_files platform source
    ordinary_directory platform run.parent
    guard (not run.is_present) Error.runtime_error
    run.mkdir
    ok files

  abbrev pub with_target : Result (List Text) → Staged
  with_target (err e) = record { result = err e; is_left = run.is_present }
  with_target (ok files) = undo (copy_and_verify files)

  unfoldable pub stage_runtime_bundle : Staged
  unfolding prepare_target copy_and_verify undo
  stage_runtime_bundle = with_target prepare_target
