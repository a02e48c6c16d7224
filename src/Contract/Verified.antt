-- ===== src/Contract/Verified.antt =====
-- validate_context_verification_record of scripts/governance_context.py, on a typed record.
use subagent_governance.Base.{
  ℕ, suc, Text, codes, text_eq, Bool, true, false, List, [], ◌∷◌, ◌++◌, ◌&&◌, not, if◌then◌else◌,
  leb, length, ◌==◌,
}
use subagent_governance.Contract.{
  PathKind, Baseline, DeclaredPath, Manifest, VerifiedPath, Verification,
}
use subagent_governance.Contract.Issues.{Rule, Issue, issue_if}
use subagent_governance.Contract.Paths.{is_object_name, is_digest}

same_kind : PathKind → PathKind → Bool
same_kind PathKind.file PathKind.file = true
same_kind PathKind.directory PathKind.directory = true
same_kind _ _ = false

same_baseline : Baseline → Baseline → Bool
same_baseline Baseline.working_tree Baseline.working_tree = true
same_baseline (Baseline.git_commit r) (Baseline.git_commit s) = text_eq r s
same_baseline _ _ = false

-- A Git object name where the baseline is a commit, and a SHA-256 otherwise.
digest_valid : Baseline → Text → Bool
unfolding is_object_name is_digest
digest_valid Baseline.working_tree d = is_digest d
digest_valid (Baseline.git_commit r) d = is_object_name d

entry_issues : Baseline → ℕ → DeclaredPath → VerifiedPath → List Issue
unfolding same_kind digest_valid
entry_issues baseline index declared verified =
    if not (text_eq verified.path declared.path && same_kind verified.kind declared.kind)
    then Issue.item Rule.not_declared (codes "required_paths") index ∷ []
    else issue_if (not (digest_valid baseline verified.digest))
        (Issue.item Rule.not_an_object_name (codes "required_paths") index)

-- The loop over the zipped lists.
zip_issues : Baseline → ℕ → List DeclaredPath → List VerifiedPath → List Issue
unfolding entry_issues
zip_issues baseline index (d ∷ ds) (v ∷ vs) =
    entry_issues baseline index d v ++ zip_issues baseline (suc index) ds vs
zip_issues baseline index _ _ = []

unfoldable pub validate_verification : (Text → Bool) → Manifest → Verification → List Issue
unfolding same_baseline zip_issues
validate_verification is_absolute m v =
    if not (leb 1 (length v.workspace_root) && is_absolute v.workspace_root)
    then Issue.at Rule.not_absolute (codes "workspace_root") ∷ []
    else if not (same_baseline v.baseline m.baseline)
    then Issue.at Rule.not_declared (codes "baseline") ∷ []
    else if not (length m.required_paths == length v.required_paths)
    then Issue.at Rule.not_declared (codes "required_paths") ∷ []
    else zip_issues m.baseline 0 m.required_paths v.required_paths
