-- ===== src/Identity/Fresh.antt =====
-- select_task_ref of governance_dispatch_identity.py returns a reference that is free.
use subagent_governance.Base.{
  ℕ, zero, suc, strip, Text, take, ◌≡◌, refl, arith, some, true, false, Bool-cases, inl, inr, List,
  [], ◌∷◌, ok, Error, >>=-eq-ok, or_raise, guard, all, is_hex, length, leb, ◌≤◌, ◌==◌, ◌||◌,
}
use subagent_governance.Json.{mem_text}
use subagent_governance.Identity.{
  Hashing, derive_task_ref, select_from, select_task_ref, is_task_ref,
}

-- A hash is a hexadecimal text of at least 20 digits; SHA-256 gives 64.
abbrev pub IsHex : Hashing → Type 0
IsHex hashing =
    (s h : Text) → hashing.sha256_hex s ≡ some h → (all is_hex h ≡ true) × (20 ≤ length h)

all-take : (n : ℕ) (s : Text) → all is_hex s ≡ true → all is_hex (take n s) ≡ true
all-take zero s h = refl
all-take (suc n) [] h = refl
all-take (suc n) (c ∷ s) h = ground (arith, all-take n s)

length-take_le : (n : ℕ) (s : Text) → n ≤ length s → length (take n s) ≡ n
length-take_le zero s h = refl
length-take_le (suc n) [] h = omega arith
length-take_le (suc n) (c ∷ s) h = let rest = length-take_le n s (omega arith) in omega arith

ref_of :
    (n : ℕ) (s : Text)
    → (n == 12 || n == 20) ≡ true
    → all is_hex s ≡ true
    → 20 ≤ length s
    → is_task_ref (take n s) ≡ true
unfolding is_task_ref
ref_of n s k h e =
    let digits = all-take n s h in
    let size = length-take_le n s (ground arith) in ground (arith, digits, size)

derived-IsTaskRef :
    (hashing : Hashing) (task_id r : Text) (n : ℕ)
    → IsHex hashing
    → derive_task_ref hashing task_id n ≡ ok r
    → is_task_ref r ≡ true
unfolding derive_task_ref is_task_ref
derived-IsTaskRef hashing task_id r n hex h =
    let (_, known, h₁) = >>=-eq-ok (guard (n == 12 || n == 20) Error.value_error) _ h in
    let (_, there, h₂) =
      >>=-eq-ok (guard (leb 1 (length (strip task_id))) Error.value_error) _ h₁ in
    let (digest, hashed, e) =
      >>=-eq-ok (or_raise (hashing.sha256_hex task_id) Error.value_error) _ h₂ in
    let (digits, size) = hex task_id digest (ground (arith, hashed)) in
    let form = ref_of n digest (ground (arith, known)) digits size in ground (arith, form, e)

free_from :
    (hashing : Hashing) (task_id r : Text) (occupied : List Text) (ns : List ℕ)
    → IsHex hashing
    → select_from hashing task_id occupied ns ≡ ok (some r)
    → (mem_text r occupied ≡ false) × (is_task_ref r ≡ true)
unfolding select_from
free_from hashing task_id r occupied [] hex h = absurd (ground arith)
free_from hashing task_id r occupied (n ∷ ns) hex h =
    let (candidate, derived, h₁) = >>=-eq-ok (derive_task_ref hashing task_id n) _ h in
    elim (Bool-cases (mem_text candidate occupied)) [
      | inl used ↦ free_from hashing task_id r occupied ns hex (ground (arith, used, h₁))
      | inr free ↦
          let same : candidate ≡ r = ground (arith, free, h₁) in
          let form = derived-IsTaskRef hashing task_id candidate n hex derived in
          (rw same at free, rw same at form)
    ]

-- A selected reference is none of the occupied ones and has the form of a task reference, where the
-- hash returns at least 20 hexadecimal digits.
pub select_task_ref-free :
    (hashing : Hashing) (task_id r : Text) (occupied : List Text)
    → IsHex hashing
    → select_task_ref hashing task_id occupied ≡ ok (some r)
    → (mem_text r occupied ≡ false) × (is_task_ref r ≡ true)
unfolding select_task_ref select_from
select_task_ref-free hashing task_id r occupied hex h =
    free_from hashing task_id r occupied (12 ∷ 20 ∷ []) hex h
