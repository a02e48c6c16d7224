-- ===== src/Bundle.antt =====
-- scripts/runtime_bundle.py: the list of the files that make up the installed program, the digest of
-- them, and the test that a directory holds these files and no others. The directory is taken as it
-- stands: nothing else writes to it meanwhile.
pub mod Listing
pub mod Paths
pub mod Exact
pub mod Staging
pub mod Whole
use Prim.Native.Nat.{◌/◌, ◌%◌}
use subagent_governance.Base.{
  ℕ, zero, suc, ◌+◌, Text, codes, text_eq, Option, none, some, Bool, true, false, List, [], ◌∷◌,
  ◌++◌, ◌&&◌, ◌||◌, not, if◌then◌else◌, leb, ltb, ◌==◌, length, Result, ok, err, Error, guard,
  or_raise, ◌>>=◌, ◌>>◌,
}
use subagent_governance.Json.{Value, Fields, Items, get, exact_fields, same_keys, mem_text}
use subagent_governance.Material.Outside.{FileKind}
use subagent_governance.Storage.{Platform}
use subagent_governance.Bundle.Paths.{
  path_parts, as_posix, canonical_relative, sort_texts, distinct,
}

-- What a path leads to: whether it is a link itself, and the rest of what stat and a read find.
pub record Node : Type 0 where
  pub is_symlink : Bool
  pub kind : Option FileKind
  pub owner : ℕ
  pub permissions : ℕ
  pub contents : Text

-- A directory: what stands at each path below it, the paths that rglob lists, and its manifest as
-- json.loads reads it, if it does.
pub record Root : Type 0 where
  pub node : List Text → Node
  pub below : List (List Text)
  pub manifest : Option Value

-- `str.encode` and `sha256(...).hexdigest()`
pub record Digesting : Type 0 where
  pub utf8 : Text → Text
  pub sha256_hex : Text → Text

abbrev pub is_dir : Node → Bool
is_dir n = elim n.kind [ some FileKind.directory ↦ true | _ ↦ false ]

abbrev pub is_file : Node → Bool
is_file n = elim n.kind [ some FileKind.regular ↦ true | _ ↦ false ]

-- MANIFEST_RELATIVE
abbrev pub manifest_relative : Text
manifest_relative = codes ".codex-plugin/runtime-bundle.json"

-- `oct(mode)` without its prefix: a mode has at most four octal digits.
octal_from : ℕ → ℕ → Text
octal_from zero n = []
octal_from (suc fuel) n =
    let rest = octal_from fuel (n / 8) in
    if ltb n 8 then (b'0' + n) ∷ [] else rest ++ (b'0' + n % 8) ∷ []

unfoldable pub octal : ℕ → Text
unfolding octal_from
octal n = codes "0o" ++ octal_from 4 n

abbrev pub bundle_fields : List Text
bundle_fields = codes "format_version" ∷ codes "files" ∷ []

-- `value.get("format_version") == 1`, and no bool. The code takes a float 1.0 as well, which `num 1`
-- stands for here.
unfoldable pub is_version : Value → Bool
is_version (Value.num n) = n == 1
is_version _ = false

-- `tuple(_canonical_relative(item) for item in raw_files)`
unfoldable pub canonical_all : Items → Result (List Text)
unfolding canonical_relative
canonical_all Items.nil = ok []
canonical_all (Items.cons item items) =
    let rest = canonical_all items in
    do file ← canonical_relative item; files ← rest; ok (file ∷ files)

unfoldable pub raw_files : Value → Result Items
raw_files (Value.arr items) = ok items
raw_files _ = err Error.runtime_error

abbrev pub texts_eq : List Text → List Text → Bool
texts_eq [] [] = true
texts_eq (s ∷ ss) (t ∷ ts) = text_eq s t && texts_eq ss ts
texts_eq _ _ = false

-- Not empty, sorted and without repetitions.
abbrev pub is_ordered : List Text → Bool
is_ordered files =
    leb 1 (length files)
    && (texts_eq files (sort_texts files) && length (distinct files) == length files)

-- The checks of the decoded manifest.
unfoldable pub listed_files : Value → Result (List Text)
unfolding is_version raw_files canonical_all sort_texts distinct
listed_files value = do
  fields ← or_raise (exact_fields bundle_fields value) Error.runtime_error
  guard (is_version (get (codes "format_version") fields)) Error.runtime_error
  items ← raw_files (get (codes "files") fields)
  files ← canonical_all items
  guard (is_ordered files) Error.runtime_error
  guard (mem_text manifest_relative files) Error.runtime_error
  ok files

module _ (platform : Platform) where
  abbrev pub is_owned : Node → Bool
  is_owned n = elim platform.uid [ none ↦ true | some uid ↦ n.owner == uid ]

  -- `mode & 0o022` is the bits of 16 and of 2.
  abbrev pub is_protected : Node → Bool
  is_protected n =
      platform.is_windows || ((n.permissions / 16) % 2 == 0 && (n.permissions / 2) % 2 == 0)

  -- _ordinary_directory
  unfoldable pub ordinary_directory : Node → Result (Unit {0})
  ordinary_directory n = do
    guard (not n.is_symlink && is_dir n) Error.runtime_error
    guard (is_owned n) Error.os_error
    guard (is_protected n) Error.os_error

  -- _ordinary_file
  unfoldable pub ordinary_file : Node → Result (Unit {0})
  ordinary_file n = do
    guard (not n.is_symlink) Error.runtime_error
    guard (is_file n) Error.runtime_error
    guard (is_owned n) Error.os_error
    guard (is_protected n) Error.os_error

  module _ (root : Root) where
    -- The loop over `parts[:-1]`, from the directories passed so far.
    unfoldable pub check_parents : List Text → List Text → Result (Unit {0})
    unfolding ordinary_directory
    check_parents passed [] = ok tt
    check_parents passed (last ∷ []) = ok tt
    check_parents passed (part ∷ next ∷ parts) =
        let rest = check_parents (passed ++ part ∷ []) (next ∷ parts) in
        do ordinary_directory (root.node (passed ++ part ∷ [])); rest

    -- The loop over the listed files.
    unfoldable pub check_files : List Text → Result (Unit {0})
    unfolding check_parents ordinary_file path_parts
    check_files [] = ok tt
    check_files (relative ∷ files) =
        let rest = check_files files in
        do
          check_parents [] (path_parts relative)
          ordinary_file (root.node (path_parts relative))
          rest

    unfoldable pub runtime_files : Result (List Text)
    unfolding ordinary_directory ordinary_file listed_files check_files path_parts
    runtime_files = do
      ordinary_directory (root.node [])
      ordinary_file (root.node (path_parts manifest_relative))
      value ← or_raise root.manifest Error.runtime_error
      files ← listed_files value
      check_files files
      ok files

    -- The loop over `root.rglob("*")`: the relative paths of the files.
    unfoldable pub actual_files : List (List Text) → Result (List Text)
    unfolding as_posix
    actual_files [] = ok []
    actual_files (path ∷ paths) =
        let rest = actual_files paths in
        do
          guard (not (root.node path).is_symlink) Error.runtime_error
          if is_dir (root.node path) then rest else do
            guard (is_file (root.node path)) Error.runtime_error
            found ← rest
            ok (as_posix path ∷ found)

  module _ (digesting : Digesting) (root : Root) where
    -- The bytes that the digest is of: a path, its mode and its contents, each with a zero behind.
    unfoldable pub digested : List Text → Text
    unfolding octal path_parts
    digested [] = []
    digested (relative ∷ files) =
        let n = root.node (path_parts relative) in
        digesting.utf8 relative
        ++ (0 ∷ octal n.permissions)
        ++ (0 ∷ n.contents)
        ++ (0 ∷ digested files)

    unfoldable pub bundle_digest : Result Text
    unfolding runtime_files digested
    bundle_digest = do files ← runtime_files root; ok (digesting.sha256_hex (digested files))

    unfoldable pub verify_runtime_bundle : Result Text
    unfolding runtime_files actual_files bundle_digest
    verify_runtime_bundle = do
      files ← runtime_files root
      actual ← actual_files root root.below
      guard (same_keys actual files) Error.runtime_error
      bundle_digest
