-- ===== src/Bundle/Paths.antt =====
-- The paths of scripts/runtime_bundle.py: pathlib's PurePosixPath on a text, the canonical relative
-- paths, and Python's sorted and set on a list of texts.
use subagent_governance.Base.{
  Text, codes, split, starts_with, text_eq, Bool, List, [], ◌∷◌, ◌++◌, not, ◌&&◌, ◌||◌, any,
  if◌then◌else◌, leb, ◌==◌, length, Result, ok, err, Error, guard, ◌>>◌,
}
use subagent_governance.Json.{Value, mem_text}
use subagent_governance.Retention.{text_le}

-- The parts that pathlib keeps: neither empty nor a dot.
unfoldable pub kept_parts : List Text → List Text
kept_parts [] = []
kept_parts (part ∷ parts) =
    if leb (length part) 0 || text_eq part (codes ".")
    then kept_parts parts
    else part ∷ kept_parts parts

-- `PurePosixPath(value).parts` of a relative path
unfoldable pub path_parts : Text → List Text
unfolding kept_parts split
path_parts value = kept_parts (split b'/' value)

-- `path.as_posix()` of a relative path with these parts
unfoldable pub as_posix : List Text → Text
as_posix [] = codes "."
as_posix (part ∷ []) = part
as_posix (part ∷ next ∷ parts) = part ++ (b'/' ∷ as_posix (next ∷ parts))

abbrev pub is_plain : Text → Bool
is_plain value = leb 1 (length value) && not (any (λ c. c == b'\\') value)

abbrev pub leads_outside : Text → Bool
leads_outside value = starts_with value (codes "/") || mem_text (codes "..") (path_parts value)

-- _canonical_relative
unfoldable pub canonical_relative : Value → Result Text
unfolding path_parts as_posix
canonical_relative (Value.str value) = do
  guard (is_plain value) Error.runtime_error
  guard (not (leads_outside value)) Error.runtime_error
  guard (text_eq (as_posix (path_parts value)) value) Error.runtime_error
  ok value
canonical_relative _ = err Error.runtime_error

unfoldable pub insert_text : Text → List Text → List Text
unfolding text_le
insert_text s [] = s ∷ []
insert_text s (t ∷ ts) = if text_le s t then s ∷ t ∷ ts else t ∷ insert_text s ts

-- `sorted(texts)`
unfoldable pub sort_texts : List Text → List Text
unfolding insert_text
sort_texts [] = []
sort_texts (s ∷ ss) = insert_text s (sort_texts ss)

-- The elements of `set(texts)`
unfoldable pub distinct : List Text → List Text
distinct [] = []
distinct (s ∷ ss) = if mem_text s ss then distinct ss else s ∷ distinct ss
