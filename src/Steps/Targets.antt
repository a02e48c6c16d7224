-- ===== src/Steps/Targets.antt =====
-- A free target that confirm_dispatch of governance_dispatch.py gives to a task of a valid ledger.
use subagent_governance.Base.{
  Text, text_eq, text_eq_sound, Dict, lookup, insert, ◌≡◌, ◌≢◌, refl, arith, Option, none, some,
  Bool, ◌&&◌, true, false, Bool-cases, List, [], ◌∷◌, inl, inr,
}
use subagent_governance.Json.{mem_text}
use subagent_governance.Semantics.{is_target_owning}
use subagent_governance.Ledger.{Task, is_option}
use subagent_governance.Retention.Open.{Unique}
use subagent_governance.Dispatch.{find_owner}
use subagent_governance.State.{owned, owned_at}
use subagent_governance.State.Ledgers.{All, Targets, free, taken}
use subagent_governance.State.Replacing.{Sub}

-- No task owns the target.
Unowned : Text → Text → Task → Type 0
Unowned target k t = owned t ≢ some target

absent-Unowned :
    (k target : Text) (d : Dict Task)
    → lookup k d ≡ none
    → find_owner k target d ≡ none
    → All (Unowned target) d
unfolding lookup find_owner Unowned
absent-Unowned k target [] a f = tt
absent-Unowned k target ((j, w) ∷ d) a f = elim (Bool-cases (text_eq j k)) [
  | inl e ↦ absurd (ground (arith, e, a))
  | inr e ↦ (
    λ o. ground (arith, e, f, o),
    absent-Unowned k target d (ground (arith, e, a)) (ground (arith, e, f)),
  )
]

free-seen :
    (o : Option Text) (target : Text) (xs ys : List Text)
    → Sub ys (target ∷ xs)
    → o ≢ some target
    → free o xs ≡ true
    → free o ys ≡ true
free-seen none target xs ys s n h = refl
free-seen (some x) target xs ys s n h = elim (Bool-cases (mem_text x ys)) [
  | inr away ↦ rw away refl
  | inl there ↦
      let seen = s x there in
      elim (Bool-cases (text_eq target x)) [
        | inl same ↦ absurd (n (ground (arith, text_eq_sound target x same)))
        | inr other ↦ absurd (ground (arith, seen, other, h))
      ]
]

Sub-seen :
    (o : Option Text) (target : Text) (xs ys : List Text)
    → Sub ys (target ∷ xs)
    → Sub (taken o ys) (target ∷ taken o xs)
Sub-seen none target xs ys s z h = s z h
Sub-seen (some x) target xs ys s z h = ground (arith, s z)

-- A target that no task owns may be counted as seen.
Targets-seen :
    (target : Text) (xs ys : List Text) (d : Dict Task)
    → Sub ys (target ∷ xs)
    → All (Unowned target) d
    → Targets xs d
    → Targets ys d
unfolding Unowned
Targets-seen target xs ys [] s a r = tt
Targets-seen target xs ys ((k, w) ∷ d) s (n, a) (e, r) = (
  free-seen (owned w) target xs ys s n e,
  Targets-seen target (taken (owned w) xs) (taken (owned w) ys) d
      (Sub-seen (owned w) target xs ys s) a r,
)

unseen_at :
    (owning : Bool) (o : Option Text) (target : Text) (xs : List Text)
    → (owning && is_option o target) ≡ false
    → mem_text target xs ≡ false
    → mem_text target (taken (owned_at owning o) xs) ≡ false
unseen_at owning o target xs h m = ground (arith, h, m)

module _ (k target : Text) (t u : Task) where
  -- The task of a free target takes it.
  pub Targets-bind :
      (xs : List Text) (d : Dict Task)
      → lookup k d ≡ some t
      → Unique d
      → owned t ≡ none
      → owned u ≡ some target
      → find_owner k target d ≡ none
      → mem_text target xs ≡ false
      → Targets xs d
      → Targets xs (insert k u d)
  unfolding lookup insert find_owner
  Targets-bind xs [] h q o p f m r = absurd (cc)
  Targets-bind xs ((j, w) ∷ d) h (a, q) o p f m (e, r) = elim (Bool-cases (text_eq j k)) [
    | inl same ↦
        let path : owned w ≡ none = ground (arith, same, h, o) in
        let absent : lookup k d ≡ none = rw (text_eq_sound j k same) at a in
        let unowned = absent-Unowned k target d absent (ground (arith, same, f)) in
        let rest = Targets-seen target xs (target ∷ xs) d (λ x h. h) unowned (rw path at r) in
        rw (same, p) (ground (arith, m), rest)
    | inr other ↦ rw other (
      e,
      Targets-bind (taken (owned w) xs) d (ground (arith, other, h)) q o p
          (ground (arith, other, f))
          (unseen_at (is_target_owning w.phase) w.target target xs (ground (arith, other, f)) m) r,
    )
  ]
