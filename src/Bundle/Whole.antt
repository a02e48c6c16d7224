-- ===== src/Bundle/Whole.antt =====
-- What a run of stage_runtime_bundle of scripts/runtime_bundle.py leaves.
use subagent_governance.Base.{
  Text, text_eq, text_eq_sound, true, false, Bool, List, [], ◌∷◌, is_some, ◌≡◌, refl, sym, arith,
  Result, ok, err, Error, guard, >>=-eq-ok, ◌==◌,
}
use subagent_governance.Storage.{Platform}
use subagent_governance.Bundle.Paths.{path_parts}
use subagent_governance.Bundle.{
  Root, Digesting, ordinary_file, ordinary_directory, runtime_files, bundle_digest,
  verify_runtime_bundle,
}
use subagent_governance.Bundle.Listing.{Each}
use subagent_governance.Bundle.Staging.{
  Copying, Staged, same_file, copy_files, copy_and_verify, undo, prepare_target, with_target,
  stage_runtime_bundle,
}

module _ (platform : Platform) (digesting : Digesting) (source : Root) (run : Copying) where
  -- The file has the contents and the mode of its origin.
  abbrev pub IsCopied : Text → Type 0
  IsCopied file =
      same_file (source.node (path_parts file)) (run.target.node (path_parts file)) ≡ true

  -- A directory that was verified and holds the source's files, nothing at all, or what stood at the
  -- target before.
  pub data IsWhole : Staged → Type 0 where
    whole :
        (digest : Text) (files : List Text)
        → runtime_files platform source ≡ ok files
        → Each IsCopied files
        → bundle_digest platform digesting source ≡ ok digest
        → verify_runtime_bundle platform digesting run.target ≡ ok digest
        → IsWhole (record { result = ok digest; is_left = true })
    nothing : (e : Error) → IsWhole (record { result = err e; is_left = false })
    untouched :
        (e : Error) → run.is_present ≡ true → IsWhole (record { result = err e; is_left = true })

  copy_files-Each :
      (files : List Text) (u : Unit {0})
      → copy_files platform digesting source run files ≡ ok u
      → Each IsCopied files
  unfolding copy_files
  copy_files-Each [] u h = tt
  copy_files-Each (file ∷ files) u h =
      let origin = source.node (path_parts file) in
      let destination = run.target.node (path_parts file) in
      let (_, _, h₁) = >>=-eq-ok (run.copied file) _ h in
      let (_, _, h₂) = >>=-eq-ok (ordinary_file platform destination) _ h₁ in
      let (_, contents, h₃) =
        >>=-eq-ok (guard (text_eq origin.contents destination.contents) Error.runtime_error) _ h₂ in
      let (_, mode, h₄) =
        >>=-eq-ok (guard (origin.permissions == destination.permissions) Error.runtime_error) _
          h₃ in
      (ground (arith, contents, mode), copy_files-Each files u h₄)

  prepare_target-files :
      (files : List Text)
      → prepare_target platform digesting source run ≡ ok files
      → runtime_files platform source ≡ ok files
  unfolding prepare_target
  prepare_target-files files h =
      let (found, e, h₁) = >>=-eq-ok (runtime_files platform source) _ h in
      let (_, _, h₂) = >>=-eq-ok (ordinary_directory platform run.parent) _ h₁ in
      ground (arith, e, h₂)

  refused-IsWhole :
      (e : Error) (b : Bool) → run.is_present ≡ b → IsWhole (record { result = err e; is_left = b })
  refused-IsWhole e true h = IsWhole.untouched e h
  refused-IsWhole e false h = IsWhole.nothing e

  copied-IsWhole :
      (files : List Text) (digest : Text)
      → runtime_files platform source ≡ ok files
      → copy_and_verify platform digesting source run files ≡ ok digest
      → IsWhole (record { result = ok digest; is_left = true })
  unfolding copy_and_verify
  copied-IsWhole files digest listed h =
      let (u, copied, h₁) = >>=-eq-ok (copy_files platform digesting source run files) _ h in
      let (a, ours, h₂) = >>=-eq-ok (bundle_digest platform digesting source) _ h₁ in
      let (b, theirs, h₃) = >>=-eq-ok (verify_runtime_bundle platform digesting run.target) _ h₂ in
      let (_, same, last) = >>=-eq-ok (guard (text_eq a b) Error.runtime_error) _ h₃ in
      let target : b ≡ digest = ground (arith, last) in
      let equal : a ≡ b = text_eq_sound a b (ground (arith, same)) in
      IsWhole.whole digest files listed (copy_files-Each files u copied)
        (rw (sym target, sym equal) ours) (rw (sym target) theirs)

  module _ (there : is_some (run.target.node []).kind ≡ true)
      (plain : (run.target.node []).is_symlink ≡ false) (removed : run.removed ≡ ok tt) where
    undo-IsWhole :
        (files : List Text) (r : Result Text)
        → runtime_files platform source ≡ ok files
        → copy_and_verify platform digesting source run files ≡ r
        → IsWhole (undo platform digesting source run r)
    unfolding undo
    undo-IsWhole files (ok digest) listed c = copied-IsWhole files digest listed c
    undo-IsWhole files (err e) listed c = rw (there, plain, removed) (IsWhole.nothing e)

    with_target-IsWhole :
        (r : Result (List Text))
        → prepare_target platform digesting source run ≡ r
        → IsWhole (with_target platform digesting source run r)
    with_target-IsWhole (err e) p = refused-IsWhole e run.is_present refl
    with_target-IsWhole (ok files) p =
        undo-IsWhole files (copy_and_verify platform digesting source run files)
          (prepare_target-files files p) refl

  -- Where the new directory stands and is removed on an error, stage_runtime_bundle leaves a directory
  -- with the contents and modes of the source's files that was verified and has the source's digest,
  -- which it returns; or it ends with an error and leaves nothing, or what stood there before.
  pub stage_runtime_bundle-IsWhole :
      is_some (run.target.node []).kind ≡ true
      → (run.target.node []).is_symlink ≡ false
      → run.removed ≡ ok tt
      → IsWhole (stage_runtime_bundle platform digesting source run)
  unfolding stage_runtime_bundle
  stage_runtime_bundle-IsWhole there plain removed =
      with_target-IsWhole there plain removed (prepare_target platform digesting source run) refl
