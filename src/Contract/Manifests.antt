-- ===== src/Contract/Manifests.antt =====
-- validate_context_manifest of scripts/governance_context.py, on an unchecked value.
use subagent_governance.Base.{
  ℕ, suc, Text, codes, strip, text_eq, Bool, true, false, List, [], ◌∷◌, ◌++◌, ◌&&◌, ◌||◌, not, map,
  if◌then◌else◌, leb, ltb, length, Result, ok, ◌>>=◌,
}
use subagent_governance.Json.{
  Value, Fields, values, get, is_member, is_word, unknown_keys, missing_keys, mem_text,
}
use subagent_governance.Contract.Issues.{Rule, Issue, issue_if}
use subagent_governance.Contract.Paths.{is_unsafe_path, is_object_name}

abbrev missing_issues : List Text → Fields → List Issue
missing_issues wanted fs = map (λ k. Issue.at Rule.missing k) (missing_keys wanted fs)

abbrev unknown_issues : List Text → Fields → Text → List Issue
unknown_issues wanted fs name =
    issue_if (ltb 0 (length (unknown_keys wanted fs))) (Issue.at Rule.unknown_field name)

abbrev is_none : Value → Bool
is_none Value.null = true
is_none _ = false

-- The checks of workspace_root; `is_absolute` is that of pathlib.
root_issues : (Text → Bool) → Value → List Issue
root_issues is_absolute (Value.str s) =
    let field = codes "workspace_root" in
    if leb (length (strip s)) 0
    then Issue.at Rule.blank field ∷ []
    else if not (text_eq s (strip s)) || ltb 4000 (length s)
    then Issue.at Rule.untrimmed field ∷ []
    else if is_absolute s
    then []
    else Issue.at Rule.not_absolute field ∷ []
root_issues is_absolute _ = Issue.at Rule.blank (codes "workspace_root") ∷ []

is_commit : Value → Bool
unfolding is_object_name
is_commit (Value.str s) = is_object_name s
is_commit _ = false

baseline_fields : List Text
baseline_fields = codes "kind" ∷ codes "revision" ∷ []

baseline_issues : Value → List Issue
unfolding baseline_fields is_commit unknown_keys missing_keys
baseline_issues (Value.obj fs) =
    let kind = get (codes "kind") fs in
    let revision = get (codes "revision") fs in
    unknown_issues baseline_fields fs (codes "baseline")
    ++ (missing_issues baseline_fields fs
        ++ (if is_word (codes "working_tree") kind
            then issue_if (not (is_none revision)) (Issue.at Rule.not_null (codes "revision"))
            else if is_word (codes "git_commit") kind
            then issue_if (not (is_commit revision))
                (Issue.at Rule.not_an_object_name (codes "revision"))
            else Issue.at Rule.not_a_word (codes "kind") ∷ []))
baseline_issues _ = Issue.at Rule.not_an_object (codes "baseline") ∷ []

baseline_kind : Value → Value
unfolding get
baseline_kind (Value.obj fs) = get (codes "kind") fs
baseline_kind _ = Value.null

path_fields : List Text
path_fields = codes "path" ∷ codes "type" ∷ []

-- The path of one entry: its issues, and the paths seen so far with it.
path_issues : ℕ → List Text → Value → List Issue × List Text
unfolding is_unsafe_path
path_issues index seen (Value.str s) =
    let field = codes "path" in
    if leb (length (strip s)) 0
    then (Issue.item Rule.blank field index ∷ [], seen)
    else if ltb 1000 (length s)
    then (Issue.item Rule.too_long field index ∷ [], seen)
    else if not (text_eq (strip s) s) || is_unsafe_path (strip s)
    then (Issue.item Rule.not_canonical field index ∷ [], seen)
    else if mem_text (strip s) seen
    then (Issue.item Rule.repeated field index ∷ [], seen)
    else ([], strip s ∷ seen)
path_issues index seen _ = (Issue.item Rule.blank (codes "path") index ∷ [], seen)

type_issues : ℕ → Value → Value → Result (List Issue)
type_issues index kind v = do
  known ← is_member (codes "file" ∷ codes "directory" ∷ []) v
  ok (
      if not known
      then Issue.item Rule.not_a_word (codes "type") index ∷ []
      else issue_if (is_word (codes "working_tree") kind && is_word (codes "directory") v)
          (Issue.item Rule.not_a_word (codes "type") index))

entry_issues : ℕ → List Text → Value → Value → Result (List Issue × List Text)
unfolding path_issues type_issues path_fields missing_keys unknown_keys get
entry_issues index seen kind (Value.obj fs) = do
  let (found, seen') = path_issues index seen (get (codes "path") fs)
  typed ← type_issues index kind (get (codes "type") fs)
  ok (
    issue_if (ltb 0 (length (missing_keys path_fields fs)))
          (Issue.item Rule.missing (codes "required_paths") index)
        ++ (issue_if (ltb 0 (length (unknown_keys path_fields fs)))
              (Issue.item Rule.unknown_field (codes "required_paths") index)
            ++ (found ++ typed)),
    seen',
  )
entry_issues index seen kind _ =
    ok (Issue.item Rule.not_an_object (codes "required_paths") index ∷ [], seen)

-- The loop over required_paths.
entries_issues : ℕ → List Text → Value → List Value → Result (List Issue)
unfolding entry_issues
entries_issues index seen kind [] = ok []
entries_issues index seen kind (v ∷ vs) = do
  r ← entry_issues index seen kind v
  rest ← entries_issues (suc index) r.1 kind vs
  ok (r.0 ++ rest)

paths_issues : Value → Value → Result (List Issue)
unfolding entries_issues values
paths_issues kind (Value.arr items) = do
  let vs = values items
  let field = codes "required_paths"
  found ← entries_issues 0 [] kind vs
  ok (
      issue_if (leb (length vs) 0) (Issue.at Rule.too_few field)
      ++ (issue_if (ltb 64 (length vs)) (Issue.at Rule.too_many field) ++ found))
paths_issues kind _ = ok (Issue.at Rule.not_a_list (codes "required_paths") ∷ [])

pub manifest_fields : List Text
manifest_fields =
    codes "mode" ∷ codes "workspace_root" ∷ codes "baseline" ∷ codes "required_paths" ∷ []

declared_issues : (Text → Bool) → Fields → Result (List Issue)
unfolding root_issues baseline_issues baseline_kind paths_issues manifest_fields missing_keys
    unknown_keys get
declared_issues is_absolute fs = do
  let baseline = get (codes "baseline") fs
  found ← paths_issues (baseline_kind baseline) (get (codes "required_paths") fs)
  ok (
      missing_issues manifest_fields fs
      ++ (unknown_issues manifest_fields fs (codes "context_manifest")
          ++ (root_issues is_absolute (get (codes "workspace_root") fs)
              ++ (baseline_issues baseline ++ found))))

-- validate_context_manifest
unfoldable pub validate_context_manifest : (Text → Bool) → Value → Result (List Issue)
unfolding declared_issues unknown_keys get
validate_context_manifest is_absolute (Value.obj fs) = do
  let mode = get (codes "mode") fs
  known ← is_member (codes "none" ∷ codes "declared" ∷ []) mode
  if not known
      then ok (Issue.at Rule.not_a_word (codes "mode") ∷ [])
      else if is_word (codes "none") mode
      then ok (unknown_issues (codes "mode" ∷ []) fs (codes "context_manifest"))
      else declared_issues is_absolute fs
validate_context_manifest is_absolute _ =
    ok (Issue.at Rule.not_an_object (codes "context_manifest") ∷ [])
