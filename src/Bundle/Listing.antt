-- ===== src/Bundle/Listing.antt =====
-- The lists of files that scripts/runtime_bundle.py accepts from a manifest.
use mathlib.Core.Path.{subst}
use subagent_governance.Base.{
  map, refl, ◌≤◌, Text, codes, starts_with, text_eq, text_eq_sound, true, false, Bool-cases, List,
  [], ◌∷◌, not, length, ◌≡◌, sym, arith, inl, inr, ok, Error, guard, or_raise, >>=-eq-ok,
}
use subagent_governance.Json.{
  Value, Items, Fields, get, exact_fields, same_keys, keys, mem_text, values,
}
use subagent_governance.Bundle.Paths.{
  path_parts, as_posix, canonical_relative, is_plain, leads_outside, distinct,
}
use subagent_governance.Bundle.{
  manifest_relative, canonical_all, raw_files, is_version, listed_files, is_ordered, bundle_fields,
}

abbrev pub Each : {A : Type 0} → (A → Type 0) → List A → Type 0
Each P [] = Unit
Each P (x ∷ xs) = P x × Each P xs

pub Each-map :
    {A : Type 0} {P Q : A → Type 0} → ((a : A) → P a → Q a) → (xs : List A) → Each P xs → Each Q xs
Each-map f [] p = tt
Each-map f (x ∷ xs) (p, ps) = (f x p, Each-map f xs ps)

-- No text stands twice in the list.
abbrev pub Different : List Text → Type 0
Different [] = Unit
Different (s ∷ ss) = (mem_text s ss ≡ false) × Different ss

-- A relative path without a step to a parent.
pub record IsInside (relative : Text) : Type 0 where
  pub relative_path : starts_with relative (codes "/") ≡ false
  pub no_parent : mem_text (codes "..") (path_parts relative) ≡ false
  pub canonical : as_posix (path_parts relative) ≡ relative

distinct_shorter : (ss : List Text) → length (distinct ss) ≤ length ss
unfolding distinct
distinct_shorter [] = ground arith
distinct_shorter (s ∷ ss) = elim (Bool-cases (mem_text s ss)) [
  | inl e ↦ rw e (ground (arith, distinct_shorter ss))
  | inr e ↦ rw e (ground (arith, distinct_shorter ss))
]

distinct-Different : (ss : List Text) → length ss ≤ length (distinct ss) → Different ss
unfolding distinct
distinct-Different [] h = tt
distinct-Different (s ∷ ss) h = elim (Bool-cases (mem_text s ss)) [
  | inl e ↦ absurd (ground (arith, distinct_shorter ss, e, h))
  | inr e ↦ (e, distinct-Different ss (ground (arith, e, h)))
]

canonical_relative-IsInside :
    (v : Value) (file : Text) → canonical_relative v ≡ ok file → IsInside file
unfolding canonical_relative
canonical_relative-IsInside (Value.str s) file h =
    let (_, plain, h₁) = >>=-eq-ok (guard (is_plain s) Error.runtime_error) _ h in
    let (_, inside, h₂) = >>=-eq-ok (guard (not (leads_outside s)) Error.runtime_error) _ h₁ in
    let (_, same, last) =
      >>=-eq-ok (guard (text_eq (as_posix (path_parts s)) s) Error.runtime_error) _ h₂ in
    let file_is : s ≡ file = ground (arith, last) in
    rw (sym file_is) (record {
      relative_path = ground (arith, inside);
      no_parent = ground (arith, inside);
      canonical = text_eq_sound _ _ (ground (arith, same));
    })
canonical_relative-IsInside v file h = absurd (ground (arith, h))

canonical_all-Each :
    (items : Items) (files : List Text) → canonical_all items ≡ ok files → Each IsInside files
unfolding canonical_all
canonical_all-Each Items.nil [] h = tt
canonical_all-Each Items.nil (f ∷ fs) h = absurd (cc)
canonical_all-Each (Items.cons item items) files h =
    let (file, e, h₁) = >>=-eq-ok (canonical_relative item) _ h in
    let (rest, f, last) = >>=-eq-ok (canonical_all items) _ h₁ in
    let same : (file ∷ rest) ≡ files = ground (arith, last) in
    rw (sym same) (canonical_relative-IsInside item file e, canonical_all-Each items rest f)

-- The value is an object with the first version of the format, and with these files.
pub record IsManifest (v : Value) (files : List Text) : Type 0 where
  pub fields : Fields
  pub listed : Items
  pub object : v ≡ Value.obj fields
  pub version : get (codes "format_version") fields ≡ Value.num 1
  pub array : get (codes "files") fields ≡ Value.arr listed
  pub named : values listed ≡ map Value.str files

-- A list of files that a manifest may hold.
pub record IsListing (files : List Text) : Type 0 where
  pub inside : Each IsInside files
  pub different : Different files
  pub manifest : mem_text manifest_relative files ≡ true

canonical_relative-str :
    (v : Value) (file : Text) → canonical_relative v ≡ ok file → v ≡ Value.str file
unfolding canonical_relative
canonical_relative-str (Value.str s) file h =
    let (_, plain, h₁) = >>=-eq-ok (guard (is_plain s) Error.runtime_error) _ h in
    let (_, inside, h₂) = >>=-eq-ok (guard (not (leads_outside s)) Error.runtime_error) _ h₁ in
    let (_, same, last) =
      >>=-eq-ok (guard (text_eq (as_posix (path_parts s)) s) Error.runtime_error) _ h₂ in
    ground (arith, last)
canonical_relative-str v file h = absurd (ground (arith, h))

canonical_all-named :
    (listed : Items) (files : List Text)
    → canonical_all listed ≡ ok files
    → values listed ≡ map Value.str files
unfolding canonical_all values
canonical_all-named Items.nil [] h = refl
canonical_all-named Items.nil (f ∷ fs) h = absurd (cc)
canonical_all-named (Items.cons item items) files h =
    let (file, e, h₁) = >>=-eq-ok (canonical_relative item) _ h in
    let (rest, f, last) = >>=-eq-ok (canonical_all items) _ h₁ in
    let same : (file ∷ rest) ≡ files = ground (arith, last) in
    subst (λ fs. (item ∷ values items) ≡ map Value.str fs) same
      (ground (arith, canonical_relative-str item file e, canonical_all-named items rest f))

exact_fields-obj :
    (v : Value) (fs : Fields)
    → or_raise (exact_fields bundle_fields v) Error.runtime_error ≡ ok fs
    → v ≡ Value.obj fs
unfolding exact_fields
exact_fields-obj (Value.obj gs) fs h = elim (Bool-cases (same_keys (keys gs) bundle_fields)) [
  | inl e ↦ ground (arith, e, h)
  | inr e ↦ absurd (ground (arith, e, h))
]
exact_fields-obj v fs h = absurd (ground (arith, h))

is_version-num : (v : Value) → is_version v ≡ true → v ≡ Value.num 1
unfolding is_version
is_version-num (Value.num n) h = ground (arith, h)
is_version-num v h = absurd (cc)

raw_files-arr : (v : Value) (listed : Items) → raw_files v ≡ ok listed → v ≡ Value.arr listed
unfolding raw_files
raw_files-arr (Value.arr items) listed h = ground (arith, h)
raw_files-arr v listed h = absurd (ground (arith, h))

pub listed_files-IsListing :
    (v : Value) (files : List Text)
    → listed_files v ≡ ok files
    → IsManifest v files × IsListing files
unfolding listed_files
listed_files-IsListing v files h =
    let (fs, object, h₁) =
      >>=-eq-ok (or_raise (exact_fields bundle_fields v) Error.runtime_error) _ h in
    let (_, version, h₂) =
      >>=-eq-ok (guard (is_version (get (codes "format_version") fs)) Error.runtime_error) _ h₁ in
    let (listed, array, h₃) = >>=-eq-ok (raw_files (get (codes "files") fs)) _ h₂ in
    let (found, each, h₄) = >>=-eq-ok (canonical_all listed) _ h₃ in
    let (_, ordered, h₅) = >>=-eq-ok (guard (is_ordered found) Error.runtime_error) _ h₄ in
    let (_, own, last) =
      >>=-eq-ok (guard (mem_text manifest_relative found) Error.runtime_error) _ h₅ in
    let same : found ≡ files = ground (arith, last) in
    subst (λ xs. IsManifest v xs × IsListing xs) same
      (
        record {
          fields = fs;
          listed = listed;
          object = exact_fields-obj v fs object;
          version = is_version-num (get (codes "format_version") fs) (ground (arith, version));
          array = raw_files-arr (get (codes "files") fs) listed array;
          named = canonical_all-named listed found each;
        },
        record {
          inside = canonical_all-Each listed found each;
          different = distinct-Different found (ground (arith, ordered));
          manifest = ground (arith, own);
        },
      )
