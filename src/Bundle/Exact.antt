-- ===== src/Bundle/Exact.antt =====
-- What verify_runtime_bundle of scripts/runtime_bundle.py finds where it returns.
use subagent_governance.Bundle.Listing.{
  Each, Each-map, IsListing, IsManifest, listed_files-IsListing,
}
use mathlib.Core.Path.{subst}
use subagent_governance.Base.{
  Text, text_eq, text_eq_sound, text_eq_complete, true, false, Bool-cases, List, [], ◌∷◌, not,
  &&-eq-true, all, map, ◌≡◌, refl, sym, arith, inl, inr, ok, Error, guard, or_raise, >>=-eq-ok,
  some,
}
use subagent_governance.Json.{Value, same_keys, mem_text}
use subagent_governance.State.Replacing.{Sub}
use subagent_governance.Storage.{Platform}
use subagent_governance.Bundle.Paths.{path_parts, as_posix}
use subagent_governance.Bundle.{
  Node, Root, Digesting, is_dir, is_file, manifest_relative, listed_files, is_owned, is_protected,
  ordinary_directory, ordinary_file, check_parents, check_files, runtime_files, actual_files,
  digested, bundle_digest, verify_runtime_bundle,
}

mem_head : (x : Text) (xs : List Text) → mem_text x (x ∷ xs) ≡ true
mem_head x xs = rw (text_eq_complete x x refl) refl

mem_behind : (x y : Text) (xs : List Text) → mem_text x xs ≡ true → mem_text x (y ∷ xs) ≡ true
mem_behind x y xs h = ground (arith, h)

Sub-cons : (x : Text) (xs ys : List Text) → Sub xs ys → Sub (x ∷ xs) (x ∷ ys)
Sub-cons x xs ys s z h = ground (arith, s z)

all-Sub : (xs ys : List Text) → all (λ k. mem_text k ys) xs ≡ true → Sub xs ys
all-Sub [] ys h x m = absurd (ground (arith, m))
all-Sub (k ∷ ks) ys h x m =
    let (here, rest) = &&-eq-true _ _ h in
    elim (Bool-cases (text_eq k x)) [
      | inl same ↦ rw (sym (text_eq_sound k x same)) here
      | inr other ↦ all-Sub ks ys rest x (ground (arith, other, m))
    ]

module _ (platform : Platform) where
  -- A regular file of the current user that is no link, and to which no other user may write.
  pub record IsOrdinary (n : Node) : Type 0 where
    pub no_link : n.is_symlink ≡ false
    pub regular : is_file n ≡ true
    pub owned : is_owned platform n ≡ true
    pub protected : is_protected platform n ≡ true

  ordinary_file-IsOrdinary :
      (n : Node) (u : Unit {0}) → ordinary_file platform n ≡ ok u → IsOrdinary n
  unfolding ordinary_file
  ordinary_file-IsOrdinary n u h = record {
    no_link = ground (arith, h);
    regular = ground (arith, h);
    owned = ground (arith, h);
    protected = ground (arith, h);
  }

  module _ (root : Root) where
    check_files-Each :
        (files : List Text) (u : Unit {0})
        → check_files platform root files ≡ ok u
        → Each (λ file. IsOrdinary (root.node (path_parts file))) files
    unfolding check_files
    check_files-Each [] u h = tt
    check_files-Each (file ∷ files) u h =
        let (_, _, h₁) = >>=-eq-ok (check_parents platform root [] (path_parts file)) _ h in
        let (v, here, h₂) = >>=-eq-ok (ordinary_file platform (root.node (path_parts file))) _ h₁ in
        (ordinary_file-IsOrdinary (root.node (path_parts file)) v here, check_files-Each files u h₂)

    -- What stands below the directory: directories, and files of the list.
    pub data IsListed (files : List Text) (path : List Text) : Type 0 where
      directory :
          (root.node path).is_symlink ≡ false → is_dir (root.node path) ≡ true → IsListed files path
      listed :
          (root.node path).is_symlink ≡ false
          → is_file (root.node path) ≡ true
          → mem_text (as_posix path) files ≡ true
          → IsListed files path

    IsListed-Sub :
        (xs ys : List Text) → Sub xs ys → (path : List Text) → IsListed xs path → IsListed ys path
    IsListed-Sub xs ys s path (IsListed.directory l d) = IsListed.directory l d
    IsListed-Sub xs ys s path (IsListed.listed l r m) = IsListed.listed l r (s (as_posix path) m)

    AreListed : List Text → List (List Text) → Type 0
    AreListed found paths = Each (IsListed found) paths × Sub found (map as_posix paths)

    AreListed-cons :
        (path : List Text) (paths : List (List Text)) (rest : List Text)
        → (root.node path).is_symlink ≡ false
        → is_file (root.node path) ≡ true
        → AreListed rest paths
        → AreListed (as_posix path ∷ rest) (path ∷ paths)
    unfolding AreListed
    AreListed-cons path paths rest no_link file (each, sub) =
        let here = as_posix path in
        (
          (
            IsListed.listed no_link file (mem_head here rest),
            Each-map (IsListed-Sub rest (here ∷ rest) (λ x m. mem_behind x here rest m)) paths each,
          ),
          Sub-cons here rest (map as_posix paths) sub,
        )

    actual_files-IsListed :
        (paths : List (List Text)) (found : List Text)
        → actual_files platform root paths ≡ ok found
        → AreListed found paths
    unfolding actual_files AreListed
    actual_files-IsListed [] found h = (tt, λ x m. ground (arith, h, m))
    actual_files-IsListed (path ∷ paths) found h =
        let (_, plain, h₁) =
          >>=-eq-ok (guard (not (root.node path).is_symlink) Error.runtime_error) _ h in
        let no_link : (root.node path).is_symlink ≡ false = ground (arith, plain) in
        elim (Bool-cases (is_dir (root.node path))) [
          | inl dir ↦
              let (each, sub) = actual_files-IsListed paths found (ground (arith, dir, h₁)) in
              (
                (IsListed.directory no_link dir, each),
                λ x m. mem_behind x (as_posix path) (map as_posix paths) (sub x m),
              )
          | inr other ↦
              let (_, file, h₂) =
                >>=-eq-ok (guard (is_file (root.node path)) Error.runtime_error) _
                  (rw other at h₁) in
              let (rest, e, last) = >>=-eq-ok (actual_files platform root paths) _ h₂ in
              let (each, sub) = actual_files-IsListed paths rest e in
              let same : (as_posix path ∷ rest) ≡ found = ground (arith, last) in
              subst (λ xs. AreListed xs (path ∷ paths)) same
                (AreListed-cons path paths rest no_link (ground (arith, file)) (each, sub))
        ]

    -- The directory holds the listed files, each as an ordinary file, and beside them only
    -- directories.
    pub record IsExact (files : List Text) : Type 0 where
      pub value : Value
      pub reading : root.manifest ≡ some value
      pub declared : IsManifest value files
      pub listing : IsListing files
      pub ordinary : Each (λ file. IsOrdinary (root.node (path_parts file))) files
      pub no_others : Each (IsListed files) root.below
      pub complete : Sub files (map as_posix root.below)

    runtime_files-Listed :
        (files : List Text)
        → runtime_files platform root ≡ ok files
        → ((v : Value) × (root.manifest ≡ some v) × IsManifest v files)
          × IsListing files
          × Each (λ file. IsOrdinary (root.node (path_parts file))) files
    unfolding runtime_files
    runtime_files-Listed files h =
        let (_, _, h₁) = >>=-eq-ok (ordinary_directory platform (root.node [])) _ h in
        let (_, _, h₂) =
          >>=-eq-ok (ordinary_file platform (root.node (path_parts manifest_relative))) _ h₁ in
        let (value, decoded, h₃) = >>=-eq-ok (or_raise root.manifest Error.runtime_error) _ h₂ in
        let (found, e, h₄) = >>=-eq-ok (listed_files value) _ h₃ in
        let (u, checked, last) = >>=-eq-ok (check_files platform root found) _ h₄ in
        let same : found ≡ files = ground (arith, last) in
        let (shown, listing) = listed_files-IsListing value found e in
        let reading : root.manifest ≡ some value = ground (arith, decoded) in
        rw (sym same) ((value, reading, shown), listing, check_files-Each found u checked)

    -- Where verify_runtime_bundle returns, the directory's manifest is an object with format version 1
    -- whose files are different relative paths without a step to a parent, its own among them; each is an ordinary file of the current user that no other user
    -- may write; below the directory there are these files, all of them, and else only directories, no
    -- links; and the result is the digest of the listed files.
    pub verify_runtime_bundle-IsExact :
        (digesting : Digesting) (digest : Text)
        → verify_runtime_bundle platform digesting root ≡ ok digest
        → (files : List Text) × IsExact files
          × (digest ≡ digesting.sha256_hex (digested platform digesting root files))
    unfolding verify_runtime_bundle bundle_digest same_keys AreListed
    verify_runtime_bundle-IsExact digesting digest h =
        let (files, e, h₁) = >>=-eq-ok (runtime_files platform root) _ h in
        let (found, f, h₂) = >>=-eq-ok (actual_files platform root root.below) _ h₁ in
        let (_, keys, h₃) = >>=-eq-ok (guard (same_keys found files) Error.runtime_error) _ h₂ in
        let (again, e', last) = >>=-eq-ok (runtime_files platform root) _ h₃ in
        let same : again ≡ files = ground (arith, e, e') in
        let ((value, reading, shown), listing, ordinary) = runtime_files-Listed files e in
        let (each, sub) = actual_files-IsListed root.below found f in
        let (into, back) = &&-eq-true _ _ (ground (arith, keys)) in
        (
          files,
          record {
            value = value;
            reading = reading;
            declared = shown;
            listing = listing;
            ordinary = ordinary;
            no_others =
                Each-map (IsListed-Sub found files (all-Sub found files into)) root.below each;
            complete = λ x m. sub x (all-Sub files found back x m);
          },
          ground (arith, same, last),
        )
