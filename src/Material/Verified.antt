-- ===== src/Material/Verified.antt =====
-- The entries of a commit that _verify_git of governance_context.py returns.
use mathlib.Core.Path.{subst}
use subagent_governance.Base.{
  ℕ, Text, codes, text_eq, text_eq_sound, Dict, lookup, Bool-cases, inl, inr, false, Option, none,
  some, List, [], ◌∷◌, ◌≡◌, refl, ap, arith, Result, ok, ◌∙◌,
}
use subagent_governance.Contract.{PathKind, DeclaredPath, VerifiedPath}
use subagent_governance.Material.Outside.{call, remaining_time, run-eq-ok}
use subagent_governance.Material.Listing.{
  TreeEntry, is_link_mode, type_word, baseline_entry, verify_paths,
}

-- The entry is no link and no submodule.
pub record IsPlain (entry : TreeEntry) : Type 0 where
  pub no_link : text_eq entry.mode (codes "120000") ≡ false
  pub no_submodule : text_eq entry.mode (codes "160000") ≡ false

-- The object type that git lists for a declared kind.
abbrev pub listed_type : PathKind → Text
listed_type PathKind.file = codes "blob"
listed_type PathKind.directory = codes "tree"

-- What is returned for a declared path: its entry of the listing.
pub record IsDeclared (entries : Dict TreeEntry) (item : DeclaredPath) (v : VerifiedPath)
    : Type 0 where
  pub entry : TreeEntry
  pub found : lookup item.path entries ≡ some entry
  pub plain : IsPlain entry
  pub listed : entry.object_type ≡ listed_type item.kind
  pub path : v.path ≡ item.path
  pub kind : v.kind ≡ item.kind
  pub object : v.digest ≡ entry.object_id

abbrev pub AreDeclared : Dict TreeEntry → List DeclaredPath → List VerifiedPath → Type 0
AreDeclared entries [] [] = Unit
AreDeclared entries (item ∷ items) (v ∷ vs) =
    IsDeclared entries item v × AreDeclared entries items vs
AreDeclared entries _ _ = ⊥

type_word-listed : (k : PathKind) → type_word k ≡ listed_type k
unfolding type_word
type_word-listed PathKind.file = refl
type_word-listed PathKind.directory = refl

baseline_entry-IsDeclared :
    (entries : Dict TreeEntry) (item : DeclaredPath) (o : Option TreeEntry) (v : VerifiedPath)
    → lookup item.path entries ≡ o
    → baseline_entry item o ≡ ok v
    → IsDeclared entries item v
unfolding baseline_entry is_link_mode
baseline_entry-IsDeclared entries item none v at h = absurd (ground (arith, h))
baseline_entry-IsDeclared entries item (some entry) v at h =
    elim (Bool-cases (is_link_mode entry.mode)) [
      | inl link ↦ absurd (ground (arith, link, h))
      | inr plain ↦ elim (Bool-cases (text_eq entry.object_type (type_word item.kind))) [
        | inr other ↦ absurd (ground (arith, plain, other, h))
        | inl same ↦ record {
          entry = entry;
          found = at;
          plain = record { no_link = ground (arith, plain); no_submodule = ground (arith, plain) };
          listed =
              text_eq_sound entry.object_type (type_word item.kind) same
              ∙ type_word-listed item.kind;
          path = ground (arith, plain, same, h);
          kind = ground (arith, plain, same, h);
          object = ground (arith, plain, same, h);
        }
      ]
    ]

pub verify_paths-AreDeclared :
    (entries : Dict TreeEntry) (items : List DeclaredPath) (n n' : ℕ) (vs : List VerifiedPath)
    → verify_paths entries items n ≡ (ok vs, n')
    → AreDeclared entries items vs
unfolding verify_paths
verify_paths-AreDeclared entries [] n n' [] h = tt
verify_paths-AreDeclared entries [] n n' (v ∷ vs) h = absurd (cc)
verify_paths-AreDeclared entries (item ∷ items) n n' vs h =
    let (u, n₁, _, h₁) = run-eq-ok remaining_time _ n n' vs h in
    let (v, n₂, e, h₂) =
      run-eq-ok (call (λ m. baseline_entry item (lookup item.path entries))) _ n₁ n' vs h₁ in
    let (rest, n₃, f, last) = run-eq-ok (verify_paths entries items) _ n₂ n' vs h₂ in
    let same : (v ∷ rest) ≡ vs = ground (arith, last) in
    subst (AreDeclared entries (item ∷ items)) same (
      baseline_entry-IsDeclared entries item (lookup item.path entries) v refl
          (ap {B = Result VerifiedPath} (λ r. r.0) e),
      verify_paths-AreDeclared entries items n₂ n₃ rest f,
    )
