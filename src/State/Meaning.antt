-- ===== src/State/Meaning.antt =====
-- The validator of scripts/governance_state.py against sound ledgers.
use subagent_governance.State.Facts.{
  IsIdentified-identity, claim_complete, claim_sound, clean_sound, identity-IsIdentified,
  interrupt_complete, interrupt_sound, platform_complete, platform_sound, reason_complete,
  reason_sound, reconcile_complete, terminal_complete, terminal_sound, unknown_complete,
  unknown_sound,
}
use subagent_governance.Base.{
  Text, is_text, text_eq, text_eq_sound, text_eq_complete, Dict, ◌≤◌, ◌≡◌, refl, arith, true, List,
  [], ◌∷◌, length, inl, inr, ok, not, append-eq-nil, Bool-cases, if◌then◌else◌,
}
use subagent_governance.Contract.{Business}
use subagent_governance.Semantics.{max_tasks_per_session}
use subagent_governance.Contract.Canon.{Canon}
use subagent_governance.Contract.Paths.{is_digest}
use subagent_governance.Contract.Input.{contract_summary_digest, validate_contract_summary}
use subagent_governance.Identity.{is_task_ref}
use subagent_governance.Ledger.{Task, Ledger}
use subagent_governance.State.Fields.{StateIssue, fail_if}
use subagent_governance.State.{summary_issues, is_clean, validate_current_state_format}
use subagent_governance.State.Valid.{IsValidTask}
use subagent_governance.State.Ledgers.{
  All, Refs, Targets, validate_current_state_format-IsValidLedger,
  IsValidLedger-validate_current_state_format,
}
use subagent_governance.State.Sound.{IsSound}
use subagent_governance.State.Agreeing.{field_issues-HasKeys, HasKeys-field_issues}
use subagent_governance.State.Capable.{passes, prepared-HasCapability, HasCapability-prepared}

module _ (canon : Canon) where
  record Summary (ref digest : Text) (b : Business) : Type 0 where
    form : is_task_ref ref ≡ true
    hex : is_digest digest ≡ true
    clean : validate_contract_summary canon b ≡ ok []
    same : digest ≡ contract_summary_digest canon b

  -- The part of the validator on the digest of the summary.
  abbrev summary_rest : Text → Business → List StateIssue
  summary_rest digest b =
      if is_clean (validate_contract_summary canon b)
      then fail_if (not (text_eq digest (contract_summary_digest canon b))) StateIssue.other_digest
      else StateIssue.bad_summary ∷ []

  summary_issues-Summary :
      (ref digest : Text) (b : Business)
      → summary_issues canon ref digest b ≡ []
      → Summary ref digest b
  unfolding summary_issues
  summary_issues-Summary ref digest b h =
      let bad_form = fail_if (not (is_task_ref ref)) StateIssue.bad_ref in
      let bad_hex = fail_if (not (is_digest digest)) StateIssue.bad_digest in
      let (form, h₁) = append-eq-nil bad_form _ h in
      let (hex, last) = append-eq-nil bad_hex (summary_rest digest b) h₁ in
      let found = is_clean (validate_contract_summary canon b) in
      elim (Bool-cases found) [
        | inl e ↦ record {
          form = passes _ StateIssue.bad_ref form;
          hex = passes _ StateIssue.bad_digest hex;
          clean = clean_sound (validate_contract_summary canon b) e;
          same = text_eq_sound digest (contract_summary_digest canon b) (ground (arith, e, last));
        }
        | inr e ↦ absurd (ground (arith, e, last))
      ]

  Summary-summary_issues :
      (ref digest : Text) (b : Business)
      → Summary ref digest b
      → summary_issues canon ref digest b ≡ []
  unfolding summary_issues
  Summary-summary_issues ref digest b s =
      let same = text_eq_complete digest (contract_summary_digest canon b) s.same in
      rw (s.form, s.hex, s.clean, same) refl

  IsValidTask-IsSound :
      (task_id : Text) (t : Task) → IsValidTask canon task_id t → IsSound canon task_id t
  IsValidTask-IsSound task_id t v =
      let s = summary_issues-Summary t.task_ref t.contract_digest t.contract_summary v.summary in
      record {
        key = v.key;
        ref = s.form;
        digest = s.hex;
        summary = s.clean;
        same_digest = s.same;
        times = v.times;
        keys = field_issues-HasKeys t v.shape;
        capability = prepared-HasCapability canon t.phase t v.capability;
        claim = claim_sound t.phase t v.claim;
        identity = identity-IsIdentified t v.identity;
        terminal = terminal_sound t.phase t.terminal_fact v.facts.terminal;
        platform = platform_sound t.platform_observation v.facts.platform;
        interrupt = interrupt_sound t.interrupt_fact v.facts.interrupt;
        unknown = unknown_sound t.unknown_facts v.facts.unknown;
        reason = reason_sound t.phase t v.facts.close;
      }

  IsSound-IsValidTask :
      (task_id : Text) (t : Task) → IsSound canon task_id t → IsValidTask canon task_id t
  IsSound-IsValidTask task_id t s = record {
    key = s.key;
    shape = HasKeys-field_issues t s.keys;
    summary =
        Summary-summary_issues t.task_ref t.contract_digest t.contract_summary
          (record { form = s.ref; hex = s.digest; clean = s.summary; same = s.same_digest });
    times = s.times;
    capability = HasCapability-prepared canon t.phase t s.capability;
    claim = claim_complete t.phase t s.keys.claimed_tool_use_id s.keys.claimed_at s.claim;
    identity = IsIdentified-identity t s.identity;
    facts = record {
      terminal = terminal_complete t.phase t.terminal_fact s.keys.terminal_fact s.terminal;
      platform = platform_complete t.platform_observation s.platform;
      interrupt = interrupt_complete t.interrupt_fact s.interrupt;
      close = reason_complete t.phase t s.keys.close_reason s.keys.closed_at s.reason;
      unknown = unknown_complete t.unknown_facts s.unknown;
      reconcile = reconcile_complete t.phase t.reconcile s.keys.reconcile;
    };
  }

  -- Every task is sound, no reference and no target of an open task occurs twice, and the session and
  -- the number of tasks are in bounds.
  pub record IsSoundLedger (l : Ledger) : Type 0 where
    pub session : is_text 1024 l.session_id ≡ true
    pub few : length l.tasks ≤ max_tasks_per_session
    pub each : All (IsSound canon) l.tasks
    pub refs : Refs [] l.tasks
    pub targets : Targets [] l.tasks

  All-map :
      (P Q : Text → Task → Type 0) (d : Dict Task)
      → ((k : Text) (t : Task) → P k t → Q k t)
      → All P d
      → All Q d
  All-map P Q [] f a = tt
  All-map P Q ((k, t) ∷ d) f (p, a) = (f k t p, All-map P Q d f a)

  -- Where validate_current_state_format finds nothing, every task is sound: it has the keys that its
  -- phase needs and only those that it permits, with the values that the format asks for; no reference
  -- and no target of an open task occurs twice; and the session and the number of tasks are in bounds.
  pub validate_current_state_format-IsSoundLedger :
      (l : Ledger) → validate_current_state_format canon l ≡ [] → IsSoundLedger l
  validate_current_state_format-IsSoundLedger l h =
      let v = validate_current_state_format-IsValidLedger canon l h in
      record {
        session = v.session;
        few = v.few;
        each = All-map (IsValidTask canon) (IsSound canon) l.tasks IsValidTask-IsSound v.each;
        refs = v.refs;
        targets = v.targets;
      }

  -- Where every task is sound, no reference and no target of an open task occurs twice, and the session
  -- and the number of tasks are in bounds, validate_current_state_format finds nothing.
  pub IsSoundLedger-validate_current_state_format :
      (l : Ledger) → IsSoundLedger l → validate_current_state_format canon l ≡ []
  IsSoundLedger-validate_current_state_format l s =
      IsValidLedger-validate_current_state_format canon l (record {
        session = s.session;
        few = s.few;
        each = All-map (IsSound canon) (IsValidTask canon) l.tasks IsSound-IsValidTask s.each;
        refs = s.refs;
        targets = s.targets;
      })
