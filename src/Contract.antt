-- ===== src/Contract.antt =====
-- The data of scripts/governance_contracts.py and scripts/governance_context.py: a normalised task
-- contract, the material that it declares and the record of a verification.
pub mod Canon
pub mod Issues
pub mod Paths
pub mod Manifests
pub mod Checks
pub mod Records
pub mod Verified
pub mod Read
pub mod Input
use subagent_governance.Base.{Text, Option, List, ℕ_discrete}
use subagent_governance.Semantics.{Profile}

pub data PathKind : Type 0 where
  file directory : PathKind

-- `working_tree` has the revision null; `git_commit` has a commit's name.
pub data Baseline : Type 0 where
  working_tree : Baseline
  git_commit : Text → Baseline

pub record DeclaredPath : Type 0 where
  pub path : Text
  pub kind : PathKind

-- A context manifest of mode `declared`.
pub record Manifest : Type 0 where
  pub workspace_root : Text
  pub baseline : Baseline
  pub required_paths : List DeclaredPath

-- `digest` is the field sha256 or object_id, by the baseline.
pub record VerifiedPath : Type 0 where
  pub path : Text
  pub kind : PathKind
  pub digest : Text

pub record Verification : Type 0 where
  pub workspace_root : Text
  pub baseline : Baseline
  pub required_paths : List VerifiedPath

pub record Context : Type 0 where
  pub summary : Text
  pub paths : List Text
  pub verified : Option Manifest

pub record Spawn : Type 0 where
  pub fork_turns : Text
  pub model : Option Text
  pub reasoning_effort : Option Text

-- `business_record`, which is also the contract_summary of a task.
pub record Business : Type 0 where
  pub profile : Profile
  pub objective : Text
  pub scope : List Text
  pub forbidden_scope : List Text
  pub completion : List Text
  pub evidence : List Text
  pub context : Context

pub record TaskContract : Type 0 where
  pub business_record : Business
  pub spawn : Spawn

-- expected_native_parameters of scripts/governance_dispatch_rendering.py, and the comparable form
-- of a native call, where the task name may be missing.
pub record NativeParameters : Type 0 where
  pub task_name : Option Text
  pub message : Text
  pub fork_turns : Text
  pub model : Option Text
  pub reasoning_effort : Option Text

-- Equality of these records, as of the dictionaries that they stand for.
unfoldable pub Verification-discrete : Discrete Verification
unfolding ℕ_discrete
Verification-discrete = hlevel ℕ_discrete

unfoldable pub Business-discrete : Discrete Business
unfolding ℕ_discrete
Business-discrete = hlevel ℕ_discrete
