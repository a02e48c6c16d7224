-- ===== src/Contract/Issues.antt =====
-- The error lists of the validators: each entry is a rule and the field that breaks it.
use subagent_governance.Base.{
  ℕ, suc, Text, strip, text_eq, Bool, true, false, List, [], ◌∷◌, ◌++◌, not, map, if◌then◌else◌,
  leb, ltb, length,
}
use subagent_governance.Json.{Value, values}
use subagent_governance.Semantics.{max_list_items}

pub data Rule : Type 0 where
  not_an_object not_a_list not_a_text : Rule
  missing unknown_field : Rule
  blank untrimmed too_long too_few too_many : Rule
  not_a_word not_canonical repeated not_absolute not_an_object_name : Rule
  required_by_strict not_null not_declared not_encodable too_large : Rule

pub data Issue : Type 0 where
  at : Rule → Text → Issue
  item : Rule → Text → ℕ → Issue

-- `if b: errors.append(…)`
abbrev pub issue_if : Bool → Issue → List Issue
issue_if true i = i ∷ []
issue_if false i = []

-- The checks of `_text`, in their order: the first that fails is reported.
unfoldable pub text_rules : ℕ → Value → List Rule
text_rules maximum (Value.str s) =
    if leb (length (strip s)) 0
    then Rule.blank ∷ []
    else if not (text_eq s (strip s))
    then Rule.untrimmed ∷ []
    else if ltb maximum (length s)
    then Rule.too_long ∷ []
    else []
text_rules maximum _ = Rule.not_a_text ∷ []

-- `_text`
unfoldable pub text_issues : ℕ → Text → Value → List Issue
unfolding text_rules
text_issues maximum field v = map (λ r. Issue.at r field) (text_rules maximum v)

-- The loop over the items of `_text_list`.
unfoldable pub item_issues : ℕ → Text → ℕ → List Value → List Issue
unfolding text_rules
item_issues maximum field index [] = []
item_issues maximum field index (v ∷ vs) =
    map (λ r. Issue.item r field index) (text_rules maximum v)
    ++ item_issues maximum field (suc index) vs

-- `_text_list`
unfoldable pub text_list_issues : ℕ → ℕ → Text → Value → List Issue
unfolding item_issues values
text_list_issues minimum maximum field (Value.arr items) =
    let vs = values items in
    issue_if (ltb (length vs) minimum) (Issue.at Rule.too_few field)
    ++ (issue_if (ltb max_list_items (length vs)) (Issue.at Rule.too_many field)
        ++ item_issues maximum field 0 vs)
text_list_issues minimum maximum field _ = Issue.at Rule.not_a_list field ∷ []
