-- ===== src/Material/Listing.antt =====
-- The entries that `git ls-tree` lists, as _verify_git of scripts/governance_context.py reads them.
use subagent_governance.Base.{
  ℕ, Text, codes, split, starts_with, text_eq, Dict, insert, lookup, Option, none, some, Bool, List,
  [], ◌∷◌, ◌++◌, ◌&&◌, ◌||◌, not, any, map, if◌then◌else◌, ◌==◌, length, reverse, Result, ok, err,
  Error,
}
use subagent_governance.Json.{mem_text}
use subagent_governance.Contract.{PathKind, DeclaredPath, VerifiedPath}
use subagent_governance.Material.Outside.{Algorithm, Timed, pure, call, ◌>>=◌, ◌>>◌, remaining_time}

-- An entry of `git ls-tree`: its mode, its type and its object name.
pub record TreeEntry : Type 0 where
  pub mode : Text
  pub object_type : Text
  pub object_id : Text

-- `s.rstrip("\n")`
drop_newlines : Text → Text
drop_newlines [] = []
drop_newlines (c ∷ s) = let rest = drop_newlines s in if c == b'\n' then rest else c ∷ s

unfoldable pub rstrip_newlines : Text → Text
unfolding drop_newlines
rstrip_newlines s = reverse (drop_newlines (reverse s))

-- `record.split("\t", 1)`, where a part is missing without a tab
abbrev prepend : ℕ → Option (Text × Text) → Option (Text × Text)
prepend c none = none
prepend c (some (a, b)) = some (c ∷ a, b)

unfoldable pub split_once : ℕ → Text → Option (Text × Text)
split_once d [] = none
split_once d (c ∷ s) = let rest = split_once d s in if c == d then some ([], s) else prepend c rest

-- `mode, object_type, oid = metadata.split(" ")`
three_parts : List Text → Result TreeEntry
three_parts (mode ∷ object_type ∷ object_id ∷ []) =
    ok (record { mode = mode; object_type = object_type; object_id = object_id })
three_parts _ = err Error.value_error

-- One record of the listing: its path and its entry.
parse_parts : Option (Text × Text) → Result (Text × TreeEntry)
unfolding three_parts split
parse_parts none = err Error.value_error
parse_parts (some (metadata, path)) = elim (three_parts (split b' ' metadata)) [
  | err e ↦ err e
  | ok entry ↦ ok (path, entry)
]

unfoldable pub parse_record : Text → Result (Text × TreeEntry)
unfolding parse_parts split_once
parse_record text = parse_parts (split_once b'\t' text)

add_record : Text → Dict TreeEntry → Result (Dict TreeEntry)
unfolding parse_record insert
add_record [] entries = ok entries
add_record (c ∷ s) entries = elim (parse_record (c ∷ s)) [
  | err e ↦ err e
  | ok (path, entry) ↦ ok (insert path entry entries)
]

-- The loop over `listing.split("\0")`.
unfoldable pub parse_records : Dict TreeEntry → List Text → Timed (Dict TreeEntry)
unfolding add_record remaining_time
parse_records entries [] = pure entries
parse_records entries (text ∷ texts) = do
  remaining_time
  entries' ← call (λ moment. add_record text entries)
  parse_records entries' texts

-- `{"120000", "160000"}`: links and submodules.
unfoldable pub is_link_mode : Text → Bool
is_link_mode mode = text_eq mode (codes "120000") || text_eq mode (codes "160000")

unfoldable pub type_word : PathKind → Text
type_word PathKind.file = codes "blob"
type_word PathKind.directory = codes "tree"

unfoldable pub baseline_entry : DeclaredPath → Option TreeEntry → Result VerifiedPath
unfolding is_link_mode type_word
baseline_entry item none = err Error.context_conflict
baseline_entry item (some entry) =
    if is_link_mode entry.mode
    then err Error.context_verification
    else if not (text_eq entry.object_type (type_word item.kind))
    then err Error.context_conflict
    else ok (record { path = item.path; kind = item.kind; digest = entry.object_id })

-- The loop over the declared paths.
unfoldable pub verify_paths : Dict TreeEntry → List DeclaredPath → Timed (List VerifiedPath)
unfolding baseline_entry lookup remaining_time
verify_paths entries [] = pure []
verify_paths entries (item ∷ items) =
    let rest = verify_paths entries items in
    do
      remaining_time
      verified ← call (λ moment. baseline_entry item (lookup item.path entries))
      others ← rest
      pure (verified ∷ others)

abbrev directory_prefix : DeclaredPath → List Text → List Text
directory_prefix item prefixes = elim item.kind [
  | PathKind.file ↦ prefixes
  | PathKind.directory ↦ (item.path ++ codes "/") ∷ prefixes
]

unfoldable pub directory_prefixes : List DeclaredPath → List Text
directory_prefixes [] = []
directory_prefixes (item ∷ items) = directory_prefix item (directory_prefixes items)

-- The entries that the declared paths select.
unfoldable pub is_selected : List DeclaredPath → Text → Bool
unfolding directory_prefixes
is_selected paths path =
    mem_text path (map (λ item. item.path) paths)
    || any (λ prefix. starts_with path prefix) (directory_prefixes paths)

unfoldable pub is_plain_mode : TreeEntry → Bool
is_plain_mode entry =
    mem_text entry.mode (codes "100644" ∷ codes "100755" ∷ codes "040000" ∷ [])
    && mem_text entry.object_type (codes "blob" ∷ codes "tree" ∷ [])

unfoldable pub is_blob : TreeEntry → Bool
is_blob entry = text_eq entry.object_type (codes "blob")

unfoldable pub algorithm_of : Text → Algorithm
algorithm_of oid = if length oid == 40 then Algorithm.sha1 else Algorithm.sha256
