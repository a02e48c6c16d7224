-- ===== src/State/Ledgers.antt =====
-- The validity of a whole ledger: every task is valid, and no reference and no owned target occurs
-- twice. It is what the validator's loop computes.
use subagent_governance.Base.{
  ℕ, Text, is_text, Dict, ◌≡◌, ◌≤◌, refl, true, false, List, [], ◌∷◌, arith, Option, none, some,
  Bool, length, ltb, append-eq-nil, not,
}
use subagent_governance.Json.{mem_text}
use subagent_governance.Semantics.{max_tasks_per_session}
use subagent_governance.Contract.Canon.{Canon}
use subagent_governance.Ledger.{Task, Ledger}
use subagent_governance.State.{
  tasks_issues, owned, clash, add_target, validate_current_state_format,
}
use subagent_governance.State.Fields.{StateIssue, fail_if}
use subagent_governance.State.Valid.{IsValidTask, task_issues-IsValidTask, IsValidTask-task_issues}

abbrev pub All {ℓ} : (Text → Task → Type ℓ) → Dict Task → Type ℓ
All P [] = Unit
All P ((task_id, t) ∷ d) = P task_id t × All P d

-- No reference is in `seen`, or twice in the dictionary.
abbrev pub Refs : List Text → Dict Task → Type 0
Refs seen [] = Unit
Refs seen ((task_id, t) ∷ d) = (mem_text t.task_ref seen ≡ false) × Refs (t.task_ref ∷ seen) d

abbrev pub free : Option Text → List Text → Bool
free none seen = true
free (some goal) seen = not (mem_text goal seen)

abbrev pub taken : Option Text → List Text → List Text
taken none seen = seen
taken (some goal) seen = goal ∷ seen

-- No owned target is in `seen`, or twice in the dictionary.
abbrev pub Targets : List Text → Dict Task → Type 0
Targets seen [] = Unit
Targets seen ((task_id, t) ∷ d) = (free (owned t) seen ≡ true) × Targets (taken (owned t) seen) d

pub record IsValidLedger (canon : Canon) (l : Ledger) : Type 0 where
  pub session : is_text 1024 l.session_id ≡ true
  pub few : length l.tasks ≤ max_tasks_per_session
  pub each : All (IsValidTask canon) l.tasks
  pub refs : Refs [] l.tasks
  pub targets : Targets [] l.tasks

clash-free : (o : Option Text) (seen : List Text) → clash o seen ≡ [] → free o seen ≡ true
clash-free none seen h = refl
clash-free (some x) seen h = ground arith

free-clash : (o : Option Text) (seen : List Text) → free o seen ≡ true → clash o seen ≡ []
free-clash none seen h = refl
free-clash (some x) seen h = ground arith

free-add_target :
    (o : Option Text) (seen : List Text) → free o seen ≡ true → add_target o seen ≡ taken o seen
free-add_target none seen h = refl
free-add_target (some x) seen h = ground arith

repeated_of : (b : Bool) → fail_if b StateIssue.repeated_ref ≡ [] → b ≡ false
repeated_of b h = ground arith

session_of : (b : Bool) → fail_if (not b) StateIssue.bad_session ≡ [] → b ≡ true
session_of b h = ground arith

few_of : (n m : ℕ) → fail_if (ltb m n) StateIssue.too_many_tasks ≡ [] → n ≤ m
few_of n m h = ground arith

module _ (canon : Canon) where
  tasks_issues_sound :
      (refs targets : List Text) (d : Dict Task)
      → tasks_issues canon refs targets d ≡ []
      → All (IsValidTask canon) d × Refs refs d × Targets targets d
  unfolding tasks_issues
  tasks_issues_sound refs targets [] h = (tt, tt, tt)
  tasks_issues_sound refs targets ((k, t) ∷ d) h =
      let (task, h₁) = append-eq-nil _ _ h in
      let (ref, h₂) = append-eq-nil _ _ h₁ in
      let (target, rest) = append-eq-nil _ _ h₂ in
      let fresh = clash-free (owned t) targets target in
      let (each, rs, ts) =
        tasks_issues_sound _ _ d (rw (free-add_target (owned t) targets fresh) at rest) in
      ((task_issues-IsValidTask canon k t task, each), (repeated_of _ ref, rs), (fresh, ts))

  tasks_issues_complete :
      (refs targets : List Text) (d : Dict Task)
      → All (IsValidTask canon) d
      → Refs refs d
      → Targets targets d
      → tasks_issues canon refs targets d ≡ []
  unfolding tasks_issues
  tasks_issues_complete refs targets [] a r t = refl
  tasks_issues_complete refs targets ((k, t) ∷ d) a r s =
      rw
        (
          IsValidTask-task_issues canon k t a.0,
          r.0,
          free-clash (owned t) targets s.0,
          free-add_target (owned t) targets s.0,
        )
        (tasks_issues_complete _ _ d a.1 r.1 s.1)

  -- Where validate_current_state_format finds nothing, every task is valid, no reference and no target
  -- of an open task occurs twice, and the session and the number of tasks are in bounds.
  pub validate_current_state_format-IsValidLedger :
      (l : Ledger) → validate_current_state_format canon l ≡ [] → IsValidLedger canon l
  unfolding validate_current_state_format
  validate_current_state_format-IsValidLedger l h =
      let (session, h₁) = append-eq-nil _ _ h in
      let (few, tasks) = append-eq-nil _ _ h₁ in
      let (each, refs, targets) = tasks_issues_sound [] [] l.tasks tasks in
      record {
        session = session_of _ session;
        few = few_of _ _ few;
        each = each;
        refs = refs;
        targets = targets;
      }

  -- Where every task is valid, no reference and no target of an open task occurs twice, and the session
  -- and the number of tasks are in bounds, validate_current_state_format finds nothing.
  pub IsValidLedger-validate_current_state_format :
      (l : Ledger) → IsValidLedger canon l → validate_current_state_format canon l ≡ []
  unfolding validate_current_state_format
  IsValidLedger-validate_current_state_format l v =
      ground (arith, v.session, v.few, tasks_issues_complete [] [] l.tasks v.each v.refs v.targets)
