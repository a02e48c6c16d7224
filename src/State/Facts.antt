-- ===== src/State/Facts.antt =====
-- The checks of the claim, the identity and the facts of a task in scripts/governance_state.py against
-- those of a sound task.
use subagent_governance.Base.{
  ℕ, Text, is_text, ◌≡◌, ◌≢◌, refl, arith, Option, none, some, Bool, true, false, List, [], ◌∷◌,
  ◌⊎◌, inl, inr, Result, ok, err, is_some, not, ◌&&◌, ◌||◌,
}
use subagent_governance.Semantics.{
  is_terminal_fact_status, is_persisted_platform, is_persisted_interrupt, Phase,
}
use subagent_governance.Contract.Issues.{Issue}
use subagent_governance.Ledger.{
  Task, UnknownFacts, TerminalFact, PlatformObservation, InterruptFact,
}
use subagent_governance.State.Fields.{
  Field, StateIssue, fail_if, claim_issues, claim_issues_at, identity_issues, terminal_issues,
  platform_issues, interrupt_issues, unknown_issues, close_issues, text_within, is_identified,
  is_reconcile_phase,
}
use subagent_governance.State.{is_clean}
use subagent_governance.State.Sound.{
  Follows, rule, Has, Within, IsIdentified, HasTimes, HasClaim, HasReason,
}
use subagent_governance.State.Capable.{passes, passing}

identified_sound :
    (p : Phase) (goal : Option Text) (time : Option ℕ) (facts : Option UnknownFacts)
    → ((is_identified p || (is_some goal || is_some facts))
        && not (text_within 1024 goal && is_some time))
      ≡ false
    → IsIdentified p goal time facts
identified_sound p (some g) (some n) facts h = IsIdentified.known g n facts (ground (arith, h))
identified_sound p (some g) none facts h = absurd (ground (arith, h))
identified_sound p none time (some f) h = absurd (ground (arith, h))
identified_sound p none time none h =
    IsIdentified.open_target time (λ e. ground (arith, e, h)) (λ e. ground (arith, e, h))

open_phase : (p : Phase) → p ≢ Phase.bound → p ≢ Phase.terminal → is_identified p ≡ false
open_phase Phase.bound a b = absurd (a refl)
open_phase Phase.terminal a b = absurd (b refl)
open_phase Phase.prepared a b = refl
open_phase Phase.claimed a b = refl
open_phase Phase.reconcile a b = refl
open_phase Phase.closed a b = refl

identified_complete :
    (p : Phase) (goal : Option Text) (time : Option ℕ) (facts : Option UnknownFacts)
    → IsIdentified p goal time facts
    → ((is_identified p || (is_some goal || is_some facts))
        && not (text_within 1024 goal && is_some time))
      ≡ false
identified_complete p _ _ _ (IsIdentified.known g n facts h) = ground (arith, h)
identified_complete p _ _ _ (IsIdentified.open_target time a b) = ground (arith, open_phase p a b)

unfailed : (b : Bool) (i : StateIssue) → fail_if b i ≡ [] → b ≡ false
unfailed b i h = ground (arith, h)

pub clean_sound : (r : Result (List Issue)) → is_clean r ≡ true → r ≡ ok []
clean_sound (ok []) h = refl
clean_sound (ok (x ∷ xs)) h = absurd (ground (arith, h))
clean_sound (err e) h = absurd (cc)

module _ (t : Task) where
  pub identity-IsIdentified :
      identity_issues t ≡ [] → IsIdentified t.phase t.target t.bound_at t.unknown_facts
  unfolding identity_issues
  identity-IsIdentified h =
      identified_sound t.phase t.target t.bound_at t.unknown_facts (unfailed _ _ h)

  pub IsIdentified-identity :
      IsIdentified t.phase t.target t.bound_at t.unknown_facts → identity_issues t ≡ []
  unfolding identity_issues
  IsIdentified-identity k =
      rw (identified_complete t.phase t.target t.bound_at t.unknown_facts k) refl

-- A text that a key must hold, where the key is there.
within_sound : (o : Option Text) → text_within 1024 o ≡ true → Within (is_text 1024) o
within_sound none h = tt
within_sound (some s) h = h

pub claim_sound :
    (p : Phase) (t : Task) → claim_issues_at p t ≡ [] → HasClaim p t.claimed_tool_use_id
unfolding claim_issues
claim_sound Phase.claimed t h = within_sound t.claimed_tool_use_id (ground (arith, h))
claim_sound Phase.prepared t h = tt
claim_sound Phase.bound t h = tt
claim_sound Phase.terminal t h = tt
claim_sound Phase.reconcile t h = tt
claim_sound Phase.closed t h = tt

pub reason_sound : (p : Phase) (t : Task) → close_issues p t ≡ [] → HasReason p t.close_reason
reason_sound Phase.closed t h = within_sound t.close_reason (ground (arith, h))
reason_sound Phase.prepared t h = tt
reason_sound Phase.claimed t h = tt
reason_sound Phase.bound t h = tt
reason_sound Phase.terminal t h = tt
reason_sound Phase.reconcile t h = tt

pub terminal_sound :
    (p : Phase) (o : Option TerminalFact)
    → terminal_issues p o ≡ []
    → Within (λ f. is_terminal_fact_status f.status) o
terminal_sound p none h = tt
terminal_sound p (some f) h = passes _ StateIssue.bad_terminal h

pub platform_sound :
    (o : Option PlatformObservation)
    → platform_issues o ≡ []
    → Within (λ f. is_persisted_platform f.status) o
platform_sound none h = tt
platform_sound (some f) h = passes _ StateIssue.bad_platform h

pub interrupt_sound :
    (o : Option InterruptFact)
    → interrupt_issues o ≡ []
    → Within (λ f. is_persisted_interrupt f.status) o
interrupt_sound none h = tt
interrupt_sound (some f) h = passes _ StateIssue.bad_interrupt h

times_sound :
    (a b c : Option ℕ) → (is_some a || (is_some b || is_some c)) ≡ true → Has a ⊎ (Has b ⊎ Has c)
times_sound (some x) b c h = inl tt
times_sound none (some y) c h = inr (inl tt)
times_sound none none (some z) h = inr (inr tt)
times_sound none none none h = absurd (cc)

pub unknown_sound : (o : Option UnknownFacts) → unknown_issues o ≡ [] → HasTimes o
unknown_sound none h = tt
unknown_sound (some f) h =
    times_sound f.delivery f.platform_observation f.interrupt (passes _ StateIssue.bad_unknown h)

pub claim_complete :
    (p : Phase) (t : Task)
    → Follows (rule p Field.claimed_tool_use_id) t.claimed_tool_use_id
    → Follows (rule p Field.claimed_at) t.claimed_at
    → HasClaim p t.claimed_tool_use_id
    → claim_issues_at p t ≡ []
unfolding claim_issues rule
claim_complete Phase.claimed t a b c = here t.claimed_tool_use_id t.claimed_at a b c
  where
    here :
        (o : Option Text) (n : Option ℕ)
        → Has o
        → Has n
        → Within (is_text 1024) o
        → fail_if (not (text_within 1024 o && is_some n)) StateIssue.bad_claim ≡ []
    here none n a b c = absurd a
    here (some s) none a b c = absurd b
    here (some s) (some n) a b c = rw c refl
claim_complete Phase.prepared t a b c = refl
claim_complete Phase.bound t a b c = refl
claim_complete Phase.terminal t a b c = refl
claim_complete Phase.reconcile t a b c = refl
claim_complete Phase.closed t a b c = refl

pub reason_complete :
    (p : Phase) (t : Task)
    → Follows (rule p Field.close_reason) t.close_reason
    → Follows (rule p Field.closed_at) t.closed_at
    → HasReason p t.close_reason
    → close_issues p t ≡ []
unfolding rule
reason_complete Phase.closed t a b c = here t.close_reason t.closed_at a b c
  where
    here :
        (o : Option Text) (n : Option ℕ)
        → Has o
        → Has n
        → Within (is_text 1024) o
        → fail_if (not (text_within 1024 o && is_some n)) StateIssue.bad_close ≡ []
    here none n a b c = absurd a
    here (some s) none a b c = absurd b
    here (some s) (some n) a b c = rw c refl
reason_complete Phase.prepared t a b c = refl
reason_complete Phase.claimed t a b c = refl
reason_complete Phase.bound t a b c = refl
reason_complete Phase.terminal t a b c = refl
reason_complete Phase.reconcile t a b c = refl

pub terminal_complete :
    (p : Phase) (o : Option TerminalFact)
    → Follows (rule p Field.terminal_fact) o
    → Within (λ f. is_terminal_fact_status f.status) o
    → terminal_issues p o ≡ []
unfolding rule
terminal_complete p (some f) a w = rw w refl
terminal_complete Phase.terminal none a w = absurd a
terminal_complete Phase.prepared none a w = refl
terminal_complete Phase.claimed none a w = refl
terminal_complete Phase.bound none a w = refl
terminal_complete Phase.reconcile none a w = refl
terminal_complete Phase.closed none a w = refl

pub platform_complete :
    (o : Option PlatformObservation)
    → Within (λ f. is_persisted_platform f.status) o
    → platform_issues o ≡ []
platform_complete none w = refl
platform_complete (some f) w = rw w refl

pub interrupt_complete :
    (o : Option InterruptFact)
    → Within (λ f. is_persisted_interrupt f.status) o
    → interrupt_issues o ≡ []
interrupt_complete none w = refl
interrupt_complete (some f) w = rw w refl

times_complete :
    (a b c : Option ℕ) → Has a ⊎ (Has b ⊎ Has c) → (is_some a || (is_some b || is_some c)) ≡ true
times_complete (some x) b c h = refl
times_complete none (some y) c h = refl
times_complete none none (some z) h = refl
times_complete none none none (inl h) = absurd h
times_complete none none none (inr (inl h)) = absurd h
times_complete none none none (inr (inr h)) = absurd h

pub unknown_complete : (o : Option UnknownFacts) → HasTimes o → unknown_issues o ≡ []
unknown_complete none w = refl
unknown_complete (some f) w =
    passing _ StateIssue.bad_unknown
      (times_complete f.delivery f.platform_observation f.interrupt w)

pub reconcile_complete :
    {A : Type 0} (p : Phase) (o : Option A)
    → Follows (rule p Field.reconcile) o
    → (is_reconcile_phase p && not (is_some o)) ≡ false
unfolding rule
reconcile_complete Phase.reconcile none a = absurd a
reconcile_complete Phase.reconcile (some x) a = refl
reconcile_complete Phase.prepared o a = refl
reconcile_complete Phase.claimed o a = refl
reconcile_complete Phase.bound o a = refl
reconcile_complete Phase.terminal o a = refl
reconcile_complete Phase.closed o a = refl
