-- ===== src/Contract/Paths.antt =====
-- Relative paths: the rules that `_validate_paths` and `validate_context_manifest` share, and the
-- names of commits and objects.
use subagent_governance.Base.{
  Text, codes, text_eq, split, is_hex, starts_with, Bool, [], ◌&&◌, ◌||◌, ltb, ◌==◌, length, all,
  any,
}

abbrev is_dot_part : Text → Bool
is_dot_part p = text_eq p [] || (text_eq p (codes ".") || text_eq p (codes ".."))

-- An absolute path, a backslash, an empty part, `.`, `..` or a control character.
unfoldable pub is_unsafe_path : Text → Bool
unfolding split
is_unsafe_path p =
    starts_with p (codes "/")
    || (any (λ c. c == b'\\') p || (any is_dot_part (split b'/' p) || any (λ c. ltb c 32) p))

-- `(?:[a-f0-9]{40}|[a-f0-9]{64})`
unfoldable pub is_object_name : Text → Bool
is_object_name s = all is_hex s && (length s == 40 || length s == 64)

-- `[a-f0-9]{64}`
unfoldable pub is_digest : Text → Bool
is_digest s = all is_hex s && length s == 64
