-- ===== src/Storage/Named.antt =====
-- The names that safe_filename of scripts/governance_store_support.py gives.
use mathlib.Core.Path.{subst}
use subagent_governance.Base.{
  ℕ, zero, suc, ◌≤◌, Text, Bool, true, false, not, [], ◌∷◌, ◌++◌, all, length, take, length-append,
  is_hex, or_raise, Error, ok, >>=-eq-ok, ◌≡◌, refl, arith,
}
use subagent_governance.Identity.{Hashing, collapse}
use subagent_governance.Identity.Fresh.{IsHex}
use subagent_governance.Storage.Names.{
  is_file_char, strip_front, strip_end, or_unknown, replaced, file_prefix, safe_filename,
}

-- Only characters of names.
abbrev pub IsName : Text → Type 0
IsName s = all is_file_char s ≡ true

collapse-IsName :
    (inside : Bool) (s : Text) → IsName (collapse (λ c. not (is_file_char c)) inside s)
unfolding collapse
collapse-IsName inside [] = refl
collapse-IsName true (c ∷ s) = ground (arith, collapse-IsName true s, collapse-IsName false s)
collapse-IsName false (c ∷ s) = ground (arith, collapse-IsName true s, collapse-IsName false s)

strip_front-IsName : (s : Text) → IsName s → IsName (strip_front s)
unfolding strip_front
strip_front-IsName [] h = refl
strip_front-IsName (c ∷ s) h = ground (arith, strip_front-IsName s)

strip_end-IsName : (s : Text) → IsName s → IsName (strip_end s)
unfolding strip_end
strip_end-IsName [] h = refl
strip_end-IsName (c ∷ s) h = ground (arith, strip_end-IsName s)

take-IsName : (n : ℕ) (s : Text) → IsName s → IsName (take n s)
take-IsName zero s h = refl
take-IsName (suc n) [] h = refl
take-IsName (suc n) (c ∷ s) h = ground (arith, take-IsName n s)

or_unknown-IsName : (s : Text) → IsName s → IsName (or_unknown s)
or_unknown-IsName [] h = refl
or_unknown-IsName (c ∷ s) h = h

append-IsName : (s t : Text) → IsName s → IsName t → IsName (s ++ t)
append-IsName [] t h k = k
append-IsName (c ∷ s) t h k = ground (arith, append-IsName s t)

hex-IsName : (s : Text) → all is_hex s ≡ true → IsName s
hex-IsName [] h = refl
hex-IsName (c ∷ s) h = ground (arith, hex-IsName s)

length-take : (n : ℕ) (s : Text) → length (take n s) ≤ n
length-take zero s = omega arith
length-take (suc n) [] = omega arith
length-take (suc n) (c ∷ s) = ground (arith, length-take n s)

file_prefix-IsName : (raw : Text) → IsName (file_prefix raw)
unfolding file_prefix
file_prefix-IsName raw =
    let cleaned = replaced raw in
    let stripped = strip_end (strip_front cleaned) in
    or_unknown-IsName (take 64 stripped) (
      take-IsName 64 stripped (
        strip_end-IsName (strip_front cleaned)
          (strip_front-IsName cleaned (collapse-IsName false raw))))

short_or_unknown : (n : ℕ) (s : Text) → 7 ≤ n → length s ≤ n → length (or_unknown s) ≤ n
short_or_unknown n [] seven h = seven
short_or_unknown n (c ∷ s) seven h = h

module _ (hashing : Hashing) where
  -- The name of a file that safe_filename returns has at most 81 characters, all of them letters of
  -- the alphabet, digits, underscores, dots and dashes, where the hash returns at least 20
  -- hexadecimal digits.
  pub safe_filename-IsName :
      IsHex hashing
      → (value name : Text) → safe_filename hashing value ≡ ok name
      → IsName name × (length name ≤ 81)
  unfolding safe_filename file_prefix
  safe_filename-IsName hex value name h =
      let raw = or_unknown value in
      let (digest, found, last) =
        >>=-eq-ok (or_raise (hashing.sha256_hex raw) Error.value_error) _ h in
      let same : (file_prefix raw ++ (b'-' ∷ take 16 digest)) ≡ name = ground (arith, last) in
      let (digits, _) = hex raw digest (ground (arith, found)) in
      let ending = take-IsName 16 digest (hex-IsName digest digits) in
      let short = length-take 16 digest in
      let front : length (file_prefix raw) ≤ 64 =
        short_or_unknown 64 (take 64 (strip_end (strip_front (replaced raw)))) (omega arith)
          (length-take 64 (strip_end (strip_front (replaced raw)))) in
      subst (λ s. IsName s × (length s ≤ 81)) same
        (
          append-IsName (file_prefix raw) (b'-' ∷ take 16 digest) (file_prefix-IsName raw) ending,
          ground (arith, length-append (file_prefix raw) (b'-' ∷ take 16 digest), short, front),
        )
