-- ===== src/Contract/Records.antt =====
-- TaskContract.to_record and the plain dictionaries of a contract's parts.
use subagent_governance.Base.{Text, codes, Option, none, some, List, [], ◌∷◌, ◌++◌, map}
use subagent_governance.Json.{Value, items, fields}
use subagent_governance.Semantics.{Profile}
use subagent_governance.Contract.{
  PathKind, Baseline, DeclaredPath, Manifest, Context, Spawn, Business, TaskContract,
}

unfoldable pub profile_text : Profile → Text
profile_text Profile.standard = codes "standard"
profile_text Profile.strict = codes "strict"

kind_text : PathKind → Text
kind_text PathKind.file = codes "file"
kind_text PathKind.directory = codes "directory"

abbrev text_or_null : Option Text → Value
text_or_null none = Value.null
text_or_null (some s) = Value.str s

texts : List Text → Value
unfolding items
texts ss = Value.arr (items (map Value.str ss))

path_record : DeclaredPath → Value
unfolding kind_text fields
path_record p =
    Value.obj (
      fields ((codes "path", Value.str p.path) ∷ (codes "type", Value.str (kind_text p.kind)) ∷ []))

baseline_record : Baseline → Value
unfolding fields
baseline_record Baseline.working_tree = Value.obj (
    fields ((codes "kind", Value.str (codes "working_tree")) ∷ (codes "revision", Value.null) ∷ []))
baseline_record (Baseline.git_commit revision) = Value.obj (
    fields (
      (codes "kind", Value.str (codes "git_commit")) ∷ (codes "revision", Value.str revision) ∷ []))

unfoldable pub manifest_record : Manifest → Value
unfolding path_record baseline_record items fields
manifest_record m = Value.obj (
    fields (
      (codes "mode", Value.str (codes "declared"))
      ∷ (codes "workspace_root", Value.str m.workspace_root)
      ∷ (codes "baseline", baseline_record m.baseline)
      ∷ (codes "required_paths", Value.arr (items (map path_record m.required_paths)))
      ∷ []))

abbrev verified_record : Option Manifest → Value
verified_record none = Value.null
verified_record (some m) = manifest_record m

context_record : Context → Value
unfolding manifest_record texts fields
context_record c = Value.obj (
    fields (
      (codes "summary", Value.str c.summary)
      ∷ (codes "paths", texts c.paths)
      ∷ (codes "verified", verified_record c.verified)
      ∷ []))

unfoldable pub spawn_record : Spawn → Value
unfolding fields
spawn_record s = Value.obj (
    fields (
      (codes "fork_turns", Value.str s.fork_turns)
      ∷ (codes "model", text_or_null s.model)
      ∷ (codes "reasoning_effort", text_or_null s.reasoning_effort)
      ∷ []))

business_entries : Business → List (Text × Value)
unfolding profile_text texts context_record
business_entries b =
    (codes "profile", Value.str (profile_text b.profile))
    ∷ (codes "objective", Value.str b.objective)
    ∷ (codes "scope", texts b.scope)
    ∷ (codes "forbidden_scope", texts b.forbidden_scope)
    ∷ (codes "completion", texts b.completion)
    ∷ (codes "evidence", texts b.evidence)
    ∷ (codes "context", context_record b.context)
    ∷ []

-- business_record, as a dictionary
unfoldable pub business_value : Business → Value
unfolding business_entries fields
business_value b = Value.obj (fields (business_entries b))

-- to_record
unfoldable pub to_record : TaskContract → Value
unfolding business_entries spawn_record fields
to_record c =
    Value.obj
      (fields (business_entries c.business_record ++ (codes "spawn", spawn_record c.spawn) ∷ []))
