-- ===== src/Tests/Bundles.antt =====
-- A program directory that holds one file, its manifest.
use subagent_governance.Base.{
  Text, codes, refl, ◌≡◌, some, false, ok, [], ◌∷◌, List, take, Text-discrete, ℕ_discrete, err,
  Error, true,
}
use subagent_governance.Json.{Value, Items, fields, get, exact_fields, same_keys, keys}
use subagent_governance.Material.Outside.{FileKind}
use subagent_governance.Storage.{Platform}
use subagent_governance.Bundle.Paths.{
  path_parts, as_posix, canonical_relative, sort_texts, distinct,
}
use subagent_governance.Bundle.{
  Node, Root, Digesting, manifest_relative, listed_files, runtime_files, actual_files, digested,
  bundle_digest, verify_runtime_bundle, ordinary_directory, ordinary_file, check_parents,
  check_files, canonical_all, octal,
}
use subagent_governance.Bundle.Staging.{
  Copying, prepare_target, copy_and_verify, copy_files, undo, stage_runtime_bundle,
}
use subagent_governance.Bundle.Whole.{IsWhole, stage_runtime_bundle-IsWhole}
use subagent_governance.Bundle.Exact.{IsExact, verify_runtime_bundle-IsExact}

abbrev platform : Platform
platform = record { uid = some 1000; is_windows = false }

abbrev digesting : Digesting
digesting = record { utf8 = λ s. s; sha256_hex = λ s. take 4 s }

abbrev standing : FileKind → Node
standing kind = record {
  is_symlink = false;
  kind = some kind;
  owner = 1000;
  permissions = 493;
  contents = codes "{}";
}

abbrev at : List Text → Node
at (a ∷ b ∷ []) = standing FileKind.regular
at _ = standing FileKind.directory

abbrev manifest_value : Value
manifest_value = Value.obj (
    fields (
      (codes "format_version", Value.num 1)
      ∷ (codes "files", Value.arr (Items.cons (Value.str manifest_relative) Items.nil))
      ∷ []))

abbrev root : Root
root = record {
  node = at;
  below =
      (codes ".codex-plugin" ∷ [])
      ∷ (codes ".codex-plugin" ∷ codes "runtime-bundle.json" ∷ [])
      ∷ [];
  manifest = some manifest_value;
}

-- A step to a parent, a doubled slash and an absolute path are refused.
outside : canonical_relative (Value.str (codes "a/../b")) ≡ err Error.runtime_error
unfolding canonical_relative path_parts as_posix Text-discrete ℕ_discrete
outside = refl

doubled : canonical_relative (Value.str (codes "a//b")) ≡ err Error.runtime_error
unfolding canonical_relative path_parts as_posix Text-discrete ℕ_discrete
doubled = refl

absolute : canonical_relative (Value.str (codes "/a")) ≡ err Error.runtime_error
unfolding canonical_relative path_parts as_posix Text-discrete ℕ_discrete
absolute = refl

mode : octal 493 ≡ codes "0o755"
unfolding octal
mode = refl

verified : verify_runtime_bundle platform digesting root ≡ ok (codes ".cod")
unfolding verify_runtime_bundle runtime_files actual_files bundle_digest digested listed_files octal
    canonical_all canonical_relative path_parts as_posix sort_texts distinct ordinary_directory
    ordinary_file check_parents check_files exact_fields same_keys keys get fields Text-discrete
    ℕ_discrete
verified = refl

verify_runtime_bundle-IsExact_example :
    (files : List Text) × IsExact platform root files
    × (codes ".cod" ≡ digesting.sha256_hex (digested platform digesting root files))
verify_runtime_bundle-IsExact_example =
    verify_runtime_bundle-IsExact platform root digesting (codes ".cod") verified

abbrev run : Copying
run = record {
  parent = standing FileKind.directory;
  is_present = false;
  mkdir = ok tt;
  copied = λ file. ok tt;
  target = root;
  removed = ok tt;
}

stage_runtime_bundle-IsWhole_example :
    IsWhole platform digesting root run (record { result = ok (codes ".cod"); is_left = true })
unfolding stage_runtime_bundle prepare_target copy_and_verify copy_files undo verify_runtime_bundle
    runtime_files actual_files bundle_digest digested listed_files octal canonical_all
    canonical_relative path_parts as_posix sort_texts distinct ordinary_directory ordinary_file
    check_parents check_files exact_fields same_keys keys get fields Text-discrete ℕ_discrete
stage_runtime_bundle-IsWhole_example =
    stage_runtime_bundle-IsWhole platform digesting root run refl refl refl
