-- ===== src/State/Replacing.antt =====
-- One task of a valid ledger replaced or dropped: the ledger stays valid.
use mathlib.Core.Path.{subst, sym}
use subagent_governance.Base.{
  Text, text_eq, text_eq_sound, Dict, lookup, insert, erase, ◌≡◌, refl, true, false, List, [], ◌∷◌,
  arith, Option, none, some, Bool-cases, inl, inr, ◌⊎◌,
}
use subagent_governance.Json.{mem_text}
use subagent_governance.Ledger.{Task}
use subagent_governance.State.{owned}
use subagent_governance.State.Ledgers.{All, Refs, Targets, free, taken}

-- Every text of the first list is in the second.
abbrev pub Sub : List Text → List Text → Type 0
Sub xs ys = (x : Text) → mem_text x xs ≡ true → mem_text x ys ≡ true

Sub-cons : (y : Text) (xs ys : List Text) → Sub xs ys → Sub (y ∷ xs) (y ∷ ys)
Sub-cons y xs ys s x h = ground (arith, s x)

Sub-drop : (y : Text) (xs : List Text) → Sub xs (y ∷ xs)
Sub-drop y xs x h = ground arith

Sub-taken : (o : Option Text) (xs ys : List Text) → Sub xs ys → Sub (taken o xs) (taken o ys)
Sub-taken none xs ys s = s
Sub-taken (some y) xs ys s = Sub-cons y xs ys s

Sub-taken_drop : (o : Option Text) (xs : List Text) → Sub xs (taken o xs)
Sub-taken_drop none xs x h = h
Sub-taken_drop (some y) xs x h = Sub-drop y xs x h

absent-Sub :
    (x : Text) (xs ys : List Text) → Sub xs ys → mem_text x ys ≡ false → mem_text x xs ≡ false
absent-Sub x xs ys s h = ground (arith, s x)

free-Sub : (o : Option Text) (xs ys : List Text) → Sub xs ys → free o ys ≡ true → free o xs ≡ true
free-Sub none xs ys s h = refl
free-Sub (some x) xs ys s h = ground (arith, s x)

-- Fewer texts seen: still no repetition.
Refs-Sub : (xs ys : List Text) (d : Dict Task) → Sub xs ys → Refs ys d → Refs xs d
Refs-Sub xs ys [] s r = tt
Refs-Sub xs ys ((k, t) ∷ d) s (a, r) =
    (absent-Sub t.task_ref xs ys s a, Refs-Sub _ _ d (Sub-cons t.task_ref xs ys s) r)

pub Targets-Sub : (xs ys : List Text) (d : Dict Task) → Sub xs ys → Targets ys d → Targets xs d
Targets-Sub xs ys [] s r = tt
Targets-Sub xs ys ((k, t) ∷ d) s (a, r) =
    (free-Sub (owned t) xs ys s a, Targets-Sub _ _ d (Sub-taken (owned t) xs ys s) r)

module _ {ℓ} (P : Text → Task → Type ℓ) where
  pub All-lookup : (k : Text) (t : Task) (d : Dict Task) → All P d → lookup k d ≡ some t → P k t
  unfolding lookup
  All-lookup k t [] a h = absurd (cc)
  All-lookup k t ((j, w) ∷ d) (p, a) h = elim (Bool-cases (text_eq j k)) [
    | inl e ↦ subst (λ x. P x t) (text_eq_sound j k e) (subst (P j) (ground (arith, e, h)) p)
    | inr e ↦ All-lookup k t d a (ground (arith, e, h))
  ]

  pub All-insert : (k : Text) (u : Task) (d : Dict Task) → All P d → P k u → All P (insert k u d)
  unfolding insert
  All-insert k u [] a p = (p, tt)
  All-insert k u ((j, w) ∷ d) (q, a) p = elim (Bool-cases (text_eq j k)) [
    | inl e ↦ rw e (subst (λ x. P x u) (sym (text_eq_sound j k e)) p, a)
    | inr e ↦ rw e (q, All-insert k u d a p)
  ]

  pub All-erase : (k : Text) (d : Dict Task) → All P d → All P (erase k d)
  unfolding erase
  All-erase k [] a = tt
  All-erase k ((j, w) ∷ d) (q, a) = elim (Bool-cases (text_eq j k)) [
    | inl e ↦ rw e a
    | inr e ↦ rw e (q, All-erase k d a)
  ]

pub Refs-erase : (xs : List Text) (k : Text) (d : Dict Task) → Refs xs d → Refs xs (erase k d)
unfolding erase
Refs-erase xs k [] r = tt
Refs-erase xs k ((j, w) ∷ d) (a, r) = elim (Bool-cases (text_eq j k)) [
  | inl e ↦ rw e (Refs-Sub xs _ d (Sub-drop w.task_ref xs) r)
  | inr e ↦ rw e (a, Refs-erase _ k d r)
]

pub Targets-erase :
    (xs : List Text) (k : Text) (d : Dict Task) → Targets xs d → Targets xs (erase k d)
unfolding erase
Targets-erase xs k [] r = tt
Targets-erase xs k ((j, w) ∷ d) (a, r) = elim (Bool-cases (text_eq j k)) [
  | inl e ↦ rw e (Targets-Sub xs _ d (Sub-taken_drop (owned w) xs) r)
  | inr e ↦ rw e (a, Targets-erase _ k d r)
]

pub Refs-insert :
    (xs : List Text) (k : Text) (t u : Task) (d : Dict Task)
    → lookup k d ≡ some t
    → u.task_ref ≡ t.task_ref
    → Refs xs d
    → Refs xs (insert k u d)
unfolding lookup insert
Refs-insert xs k t u [] h same r = absurd (cc)
Refs-insert xs k t u ((j, w) ∷ d) h same (a, r) = elim (Bool-cases (text_eq j k)) [
  | inl e ↦
      let path : w.task_ref ≡ u.task_ref = ground (arith, e, h, same) in
      rw e (rw path at a, rw path at r)
  | inr e ↦ rw e (a, Refs-insert _ k t u d (ground (arith, e, h)) same r)
]

replaced-Targets :
    (old new : Option Text) (xs : List Text) (d : Dict Task)
    → (new ≡ old) ⊎ (new ≡ none)
    → free old xs ≡ true
    → Targets (taken old xs) d
    → (free new xs ≡ true) × Targets (taken new xs) d
replaced-Targets old new xs d (inl e) f r = rw e (f, r)
replaced-Targets old new xs d (inr e) f r =
    rw e (refl, Targets-Sub xs _ d (Sub-taken_drop old xs) r)

-- The new task owns what the old one owns, or nothing.
pub Targets-insert :
    (xs : List Text) (k : Text) (t u : Task) (d : Dict Task)
    → lookup k d ≡ some t
    → (owned u ≡ owned t) ⊎ (owned u ≡ none)
    → Targets xs d
    → Targets xs (insert k u d)
unfolding lookup insert
Targets-insert xs k t u [] h same r = absurd (cc)
Targets-insert xs k t u ((j, w) ∷ d) h same (a, r) = elim (Bool-cases (text_eq j k)) [
  | inl e ↦
      let path : owned w ≡ owned t = ground (arith, e, h) in
      rw e (replaced-Targets (owned w) (owned u) xs d (rw path same) a r)
  | inr e ↦ rw e (a, Targets-insert _ k t u d (ground (arith, e, h)) same r)
]
