-- ===== src/Storage/Names.antt =====
-- safe_filename of scripts/governance_store_support.py: the name of a session's file.
use subagent_governance.Base.{
  ℕ, Text, codes, Bool, false, [], ◌∷◌, ◌++◌, ◌&&◌, ◌||◌, not, if◌then◌else◌, leb, length, take,
  is_digit, ◌==◌, Result, ok, Error, or_raise, ◌>>=◌,
}
use subagent_governance.Identity.{Hashing, collapse}

-- `[A-Za-z0-9_.-]`
abbrev pub is_file_char : ℕ → Bool
is_file_char c =
    is_digit c
    || ((leb b'A' c && leb c b'Z')
        || ((leb b'a' c && leb c b'z') || (c == b'_' || (c == b'.' || c == b'-'))))

abbrev pub is_edge_char : ℕ → Bool
is_edge_char c = c == b'.' || (c == b'_' || c == b'-')

-- `strip("._-")`, at the front and at the end
unfoldable pub strip_front : Text → Text
strip_front [] = []
strip_front (c ∷ s) = if is_edge_char c then strip_front s else c ∷ s

unfoldable pub strip_end : Text → Text
strip_end [] = []
strip_end (c ∷ s) =
    let rest = strip_end s in if is_edge_char c && leb (length rest) 0 then [] else c ∷ rest

-- `re.sub(r"[^A-Za-z0-9_.-]+", "_", raw)`
abbrev pub replaced : Text → Text
replaced raw = collapse (λ c. not (is_file_char c)) false raw

-- `text or "unknown"`
abbrev pub or_unknown : Text → Text
or_unknown [] = codes "unknown"
or_unknown (c ∷ s) = c ∷ s

unfoldable pub file_prefix : Text → Text
unfolding collapse strip_front strip_end
file_prefix raw = or_unknown (take 64 (strip_end (strip_front (replaced raw))))

unfoldable pub safe_filename : Hashing → Text → Result Text
unfolding file_prefix
safe_filename hashing value = do
  hex ← or_raise (hashing.sha256_hex (or_unknown value)) Error.value_error
  ok (file_prefix (or_unknown value) ++ (b'-' ∷ take 16 hex))
