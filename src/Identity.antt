-- ===== src/Identity.antt =====
-- scripts/governance_dispatch_identity.py: task references, task names and the message header.
pub mod Fresh
use subagent_governance.Base.{
  ℕ, ◌+◌, ◌-◌, Text, codes, strip, text_eq, starts_with, drop, take, is_hex, Option, none, some,
  Bool, true, false, List, [], ◌∷◌, ◌++◌, ◌&&◌, ◌||◌, not, is_some, if◌then◌else◌, leb, ltb, ◌==◌,
  length, all, any, Result, ok, Error, guard, or_raise, ◌>>=◌, ◌>>◌,
}
use subagent_governance.Semantics.{Profile, task_name_max_length}

-- What the code takes from the standard library: `str.lower`, and the hexadecimal SHA-256 of a text,
-- which is none where the text has no UTF-8 form.
pub record Hashing : Type 0 where
  pub lower : Text → Text
  pub sha256_hex : Text → Option Text

-- `[a-z0-9]`
abbrev pub is_name_char : ℕ → Bool
is_name_char c = leb b'a' c && leb c b'z' || leb b'0' c && leb c b'9'

-- `re.sub(r"[…]+", "_", text)`: each run of matching characters becomes one underscore. `inside`
-- says that the character before is in the run.
unfoldable pub collapse : (ℕ → Bool) → Bool → Text → Text
collapse matches inside [] = []
collapse matches inside (c ∷ s) =
    let rest = collapse matches (matches c) s in
    if matches c then (if inside then rest else b'_' ∷ rest) else c ∷ rest

abbrev is_underscore : ℕ → Bool
is_underscore c = c == b'_'

-- `s.lstrip("_")`
unfoldable pub lstrip_underscores : Text → Text
lstrip_underscores [] = []
lstrip_underscores (c ∷ s) = let rest = lstrip_underscores s in if c == b'_' then rest else c ∷ s

abbrev keep_char : ℕ → Text → Text
keep_char d [] = if d == b'_' then [] else d ∷ []
keep_char d (e ∷ r) = d ∷ e ∷ r

-- `s.rstrip("_")`: a trailing run of underscores is dropped.
unfoldable pub rstrip_underscores : Text → Text
rstrip_underscores [] = []
rstrip_underscores (c ∷ s) = keep_char c (rstrip_underscores s)

-- `s or default`
abbrev pub or_text : Text → Text → Text
or_text [] default = default
or_text (c ∷ s) default = c ∷ s

-- normalize_semantic_name, on a text
unfoldable pub normalize_semantic_name : Hashing → Text → Text
unfolding collapse lstrip_underscores rstrip_underscores
normalize_semantic_name hashing value =
    let text = hashing.lower (strip value) in
    let normalized = collapse (λ c. not (is_name_char c)) false text in
    or_text (rstrip_underscores (lstrip_underscores (collapse is_underscore false normalized)))
      (codes "task")

abbrev is_ref_length : ℕ → Bool
is_ref_length n = n == 12 || n == 20

-- derive_task_ref
unfoldable pub derive_task_ref : Hashing → Text → ℕ → Result Text
derive_task_ref hashing task_id n = do
  guard (is_ref_length n) Error.value_error
  guard (leb 1 (length (strip task_id))) Error.value_error
  hex ← or_raise (hashing.sha256_hex task_id) Error.value_error
  ok (take n hex)

-- The loop over TASK_REF_LENGTHS.
unfoldable pub select_from : Hashing → Text → List Text → List ℕ → Result (Option Text)
unfolding derive_task_ref
select_from hashing task_id occupied [] = ok none
select_from hashing task_id occupied (n ∷ ns) =
    let rest = select_from hashing task_id occupied ns in
    do
      candidate ← derive_task_ref hashing task_id n
      if any (λ r. text_eq r candidate) occupied then rest else ok (some candidate)

-- select_task_ref
unfoldable pub select_task_ref : Hashing → Text → List Text → Result (Option Text)
unfolding select_from
select_task_ref hashing task_id occupied = select_from hashing task_id occupied (12 ∷ 20 ∷ [])

-- The automaton of `[a-z0-9]+(?:_[a-z0-9]+)*`: `start` says that a name character must come next.
unfoldable pub is_semantic : Bool → Text → Bool
is_semantic start [] = not start
is_semantic start (c ∷ s) =
    let within = is_semantic false s in
    let after = is_semantic true s in
    if is_name_char c then within else if not start && c == b'_' then after else false

-- `[a-f0-9]{12}|[a-f0-9]{20}`
unfoldable pub is_task_ref : Text → Bool
is_task_ref r = all is_hex r && (length r == 12 || length r == 20)

abbrev pub separator : Text
separator = codes "_t_"

abbrev pub name_prefix : Profile → Text
name_prefix Profile.standard = codes "sg_standard_"
name_prefix Profile.strict = codes "sg_strict_"

-- The rest of a name behind its profile, with a reference of n characters: the reference is what
-- stands at the end, and `_t_` and the semantic part stand before it.
unfoldable pub parse_tail : Profile → ℕ → Text → Option (Profile × Text × Text)
unfolding is_semantic
parse_tail profile n rest =
    let k = length rest - (n + 3) in
    let ref = drop 3 (drop k rest) in
    if leb (n + 3) (length rest)
      && (text_eq (take 3 (drop k rest)) separator
          && (all is_hex ref && is_semantic true (take k rest)))
    then some (profile, take k rest, ref)
    else none

-- The first reading that succeeds.
abbrev or_else : {A : Type 0} → Option A → Option A → Option A
or_else none o = o
or_else (some a) o = some a

unfoldable pub parse_profile : Profile → Text → Option (Profile × Text × Text)
unfolding parse_tail
parse_profile profile s =
    let rest = drop (length (name_prefix profile)) s in
    if starts_with s (name_prefix profile)
    then or_else (parse_tail profile 12 rest) (parse_tail profile 20 rest)
    else none

-- TASK_NAME_RE.fullmatch
unfoldable pub match_task_name : Text → Option (Profile × Text × Text)
unfolding parse_profile
match_task_name s = or_else (parse_profile Profile.standard s) (parse_profile Profile.strict s)

-- parse_task_name, on a text
unfoldable pub parse_task_name : Text → Option (Profile × Text × Text)
parse_task_name s = if ltb task_name_max_length (length s) then none else match_task_name s

-- build_task_name
unfoldable pub build_task_name : Hashing → Profile → Text → Text → Result Text
unfolding is_task_ref rstrip_underscores
build_task_name hashing profile semantic_name task_ref = do
  guard (is_task_ref task_ref) Error.value_error
  let normalized = normalize_semantic_name hashing semantic_name
  let available = task_name_max_length - length (name_prefix profile ++ (separator ++ task_ref))
  let semantic = or_text (rstrip_underscores (take available normalized)) (codes "task")
  let value = name_prefix profile ++ (semantic ++ (separator ++ task_ref))
  guard (is_some (match_task_name value)) Error.value_error
  ok value

-- MESSAGE_PREFIX
abbrev pub message_prefix : Text
message_prefix = codes "[subagent-governance:"

-- `message.split("\n", 1)[0]`
unfoldable pub first_line : Text → Text
first_line [] = []
first_line (c ∷ s) = let rest = first_line s in if c == b'\n' then [] else c ∷ rest

abbrev prepend : ℕ → Option Text → Option Text
prepend c none = none
prepend c (some s) = some (c ∷ s)

-- What stands before a final `]`, and none where the text does not end with one.
unfoldable pub before_bracket : Text → Option Text
before_bracket [] = none
before_bracket (c ∷ []) = if c == b']' then some [] else none
before_bracket (c ∷ d ∷ s) = prepend c (before_bracket (d ∷ s))

abbrev named : Option Text → Option Text
named none = none
named (some s) = if is_some (parse_task_name s) then some s else none

-- task_name_from_message, on a text. The prefix has no `]`, so the name is what stands between it
-- and the bracket.
unfoldable pub task_name_from_message : Text → Option Text
unfolding first_line before_bracket
task_name_from_message message =
    if starts_with message message_prefix
    then named (before_bracket (drop (length message_prefix) (first_line message)))
    else none
