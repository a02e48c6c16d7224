-- ===== src/Contract/Checks.antt =====
-- validate_task_contract of scripts/governance_contracts.py, on an unchecked value.
use subagent_governance.Base.{
  ℕ, suc, Text, codes, text_eq, is_digit, Option, none, some, Bool, false, List, [], ◌∷◌, ◌++◌,
  ◌&&◌, ◌||◌, not, map, if◌then◌else◌, leb, ltb, length, all, Result, ok, ◌>>=◌,
}
use subagent_governance.Json.{
  Value, Fields, values, get, is_member, is_word, is_falsy, unknown_keys, missing_keys, mem_text,
}
use subagent_governance.Semantics.{max_contract_text, max_business_text, max_contract_summary_bytes}
use subagent_governance.Contract.Canon.{Canon}
use subagent_governance.Contract.Issues.{
  Rule, Issue, issue_if, text_rules, text_issues, text_list_issues,
}
use subagent_governance.Contract.Paths.{is_unsafe_path}
use subagent_governance.Contract.Manifests.{validate_context_manifest}

-- CONTRACT_SUMMARY_FIELDS and TASK_CONTRACT_FIELDS
pub summary_fields : List Text
summary_fields =
    codes "profile"
    ∷ codes "objective"
    ∷ codes "scope"
    ∷ codes "forbidden_scope"
    ∷ codes "completion"
    ∷ codes "evidence"
    ∷ codes "context"
    ∷ []

unfoldable pub contract_fields : List Text
unfolding summary_fields
contract_fields = summary_fields ++ codes "spawn" ∷ []

context_fields : List Text
context_fields = codes "summary" ∷ codes "paths" ∷ codes "verified" ∷ []

spawn_fields : List Text
spawn_fields = codes "fork_turns" ∷ codes "model" ∷ codes "reasoning_effort" ∷ []

profiles : List Text
profiles = codes "standard" ∷ codes "strict" ∷ []

-- REASONING_EFFORTS
reasoning_efforts : List Text
reasoning_efforts =
    codes "low" ∷ codes "medium" ∷ codes "high" ∷ codes "xhigh" ∷ codes "max" ∷ codes "ultra" ∷ []

-- The part of `_validate_paths` after `_text_list`.
path_item_issues : ℕ → List Text → List Value → List Issue
unfolding text_rules is_unsafe_path
path_item_issues index seen [] = []
path_item_issues index seen (Value.str s ∷ vs) =
    let sound = leb (length (text_rules 1000 (Value.str s))) 0 in
    let field = codes "context.paths" in
    (if sound
      then issue_if (is_unsafe_path s) (Issue.item Rule.not_canonical field index)
        ++ issue_if (mem_text s seen) (Issue.item Rule.repeated field index)
      else [])
    ++ path_item_issues (suc index) (if sound then s ∷ seen else seen) vs
path_item_issues index seen (v ∷ vs) = path_item_issues (suc index) seen vs

-- `_validate_paths`
unfoldable pub validate_paths : Value → List Issue
unfolding text_list_issues path_item_issues values
validate_paths (Value.arr items) =
    text_list_issues 0 1000 (codes "context.paths") (Value.arr items)
    ++ path_item_issues 0 [] (values items)
validate_paths v = text_list_issues 0 1000 (codes "context.paths") v

is_positive_numeral : Text → Bool
is_positive_numeral [] = false
is_positive_numeral (c ∷ s) = leb b'1' c && (leb c b'9' && (all is_digit s && leb (length s) 11))

-- `none|all|[1-9][0-9]{0,11}`
unfoldable pub is_fork_turns : Text → Bool
unfolding is_positive_numeral
is_fork_turns s = text_eq s (codes "none") || (text_eq s (codes "all") || is_positive_numeral s)

fork_turns_issues : Value → List Issue
unfolding is_fork_turns
fork_turns_issues (Value.str s) =
    issue_if (not (is_fork_turns s)) (Issue.at Rule.not_a_word (codes "spawn.fork_turns"))
fork_turns_issues _ = Issue.at Rule.not_a_word (codes "spawn.fork_turns") ∷ []

model_issues : Value → List Issue
unfolding text_issues
model_issues Value.null = []
model_issues v = text_issues max_contract_text (codes "spawn.model") v

effort_issues : Value → Result (List Issue)
unfolding reasoning_efforts
effort_issues Value.null = ok []
effort_issues v = do
  known ← is_member reasoning_efforts v
  ok (issue_if (not known) (Issue.at Rule.not_a_word (codes "spawn.reasoning_effort")))

-- The part of validate_task_contract on `spawn`.
unfoldable pub spawn_issues : Value → Result (List Issue)
unfolding spawn_fields fork_turns_issues model_issues effort_issues unknown_keys missing_keys get
spawn_issues (Value.obj fs) = do
  effort ← effort_issues (get (codes "reasoning_effort") fs)
  ok (
      issue_if (ltb 0 (length (unknown_keys spawn_fields fs)))
        (Issue.at Rule.unknown_field (codes "spawn"))
      ++ (map (λ k. Issue.at Rule.missing k) (missing_keys spawn_fields fs)
          ++ (fork_turns_issues (get (codes "fork_turns") fs)
              ++ (model_issues (get (codes "model") fs) ++ effort))))
spawn_issues _ = ok (Issue.at Rule.not_an_object (codes "spawn") ∷ [])

summary_issues : Value → List Issue
summary_issues (Value.str s) =
    issue_if (ltb max_business_text (length s)) (Issue.at Rule.too_long (codes "context.summary"))
summary_issues _ = Issue.at Rule.not_a_text (codes "context.summary") ∷ []

-- `isinstance(verified, dict) and verified.get("mode") != "declared"`
mode_issues : Value → List Issue
unfolding get
mode_issues (Value.obj fs) =
    issue_if (not (is_word (codes "declared") (get (codes "mode") fs)))
      (Issue.at Rule.not_declared (codes "context.verified"))
mode_issues _ = []

module _ (canon : Canon) where
  verified_issues : Value → Result (List Issue)
  unfolding mode_issues
  verified_issues Value.null = ok []
  verified_issues v = do
    found ← validate_context_manifest canon.is_absolute v
    ok (found ++ mode_issues v)

  -- The part of validate_task_contract on `context`.
  unfoldable pub context_issues : Value → Result (List Issue)
  unfolding context_fields summary_issues verified_issues validate_paths unknown_keys missing_keys
      get
  context_issues (Value.obj fs) = do
    verified ← verified_issues (get (codes "verified") fs)
    ok (
        issue_if (ltb 0 (length (unknown_keys context_fields fs)))
          (Issue.at Rule.unknown_field (codes "context"))
        ++ (map (λ k. Issue.at Rule.missing k) (missing_keys context_fields fs)
            ++ (summary_issues (get (codes "summary") fs)
                ++ (validate_paths (get (codes "paths") fs) ++ verified))))
  context_issues _ = ok (Issue.at Rule.not_an_object (codes "context") ∷ [])

  -- `{field: value[field] for field in …}`
  project : List Text → Fields → Fields
  unfolding get
  project [] fs = Fields.end
  project (k ∷ ks) fs = Fields.field k (get k fs) (project ks fs)

  abbrev size_at : Option ℕ → List Issue
  size_at none = Issue.at Rule.not_encodable (codes "contract_summary") ∷ []
  size_at (some n) =
      issue_if (ltb max_contract_summary_bytes n)
        (Issue.at Rule.too_large (codes "contract_summary"))

  -- The byte limit of the business contract, which is read only where nothing else is wrong.
  size_issues : Fields → List Issue → List Issue
  unfolding project
  size_issues fs [] = size_at (canon.canonical_size (Value.obj (project summary_fields fs)))
  size_issues fs (i ∷ is) = i ∷ is

  strict_issues : Value → Fields → List Issue
  unfolding get is_falsy
  strict_issues profile fs =
      if is_word (codes "strict") profile
      then issue_if (is_falsy (get (codes "forbidden_scope") fs))
          (Issue.at Rule.required_by_strict (codes "forbidden_scope"))
        ++ issue_if (is_falsy (get (codes "evidence") fs))
            (Issue.at Rule.required_by_strict (codes "evidence"))
      else []

  -- The checks of the business fields that are texts or lists of texts.
  unfoldable pub business_issues : Fields → List Issue
  unfolding get text_issues text_list_issues
  business_issues fs =
      text_issues max_business_text (codes "objective") (get (codes "objective") fs)
      ++ (text_list_issues 1 max_contract_text (codes "scope") (get (codes "scope") fs)
          ++ (text_list_issues 0 max_contract_text (codes "forbidden_scope")
                (get (codes "forbidden_scope") fs)
              ++ (text_list_issues 1 max_contract_text (codes "completion")
                    (get (codes "completion") fs)
                  ++ text_list_issues 0 max_contract_text (codes "evidence")
                      (get (codes "evidence") fs))))

  -- validate_task_contract, once no field is missing.
  unfoldable pub present_issues : Fields → Result (List Issue)
  unfolding profiles size_issues strict_issues business_issues context_issues spawn_issues
      contract_fields unknown_keys get
  present_issues fs = do
    let profile = get (codes "profile") fs
    known ← is_member profiles profile
    context ← context_issues (get (codes "context") fs)
    spawn ← spawn_issues (get (codes "spawn") fs)
    ok (
        size_issues fs (
          issue_if (ltb 0 (length (unknown_keys contract_fields fs)))
            (Issue.at Rule.unknown_field (codes "contract"))
          ++ (issue_if (not known) (Issue.at Rule.not_a_word (codes "profile"))
              ++ (business_issues fs ++ (strict_issues profile fs ++ (context ++ spawn))))))

  validate_fields : List Text → Fields → Result (List Issue)
  unfolding present_issues
  validate_fields [] fs = present_issues fs
  validate_fields (k ∷ ks) fs = ok (
      map (λ j. Issue.at Rule.missing j) (k ∷ ks)
      ++ issue_if (ltb 0 (length (unknown_keys contract_fields fs)))
          (Issue.at Rule.unknown_field (codes "contract")))

  -- validate_task_contract
  unfoldable pub validate_task_contract : Value → Result (List Issue)
  unfolding validate_fields contract_fields missing_keys
  validate_task_contract (Value.obj fs) = validate_fields (missing_keys contract_fields fs) fs
  validate_task_contract _ = ok (Issue.at Rule.not_an_object (codes "contract") ∷ [])
