-- ===== src/State/Capable.antt =====
-- The checks of the capability of a prepared or claimed task in scripts/governance_state.py against a
-- sound capability.
use mathlib.Core.Bool.{decide}
use subagent_governance.Base.{
  Text, is_text, text_eq, text_eq_sound, text_eq_complete, ◌≡◌, refl, sym, ◌∙◌, ap, arith, Option,
  none, some, Bool, true, false, ltb, length, List, [], Result, ok, err, not, ◌&&◌, append-eq-nil,
  nil-append-nil,
}
use subagent_governance.Semantics.{Phase}
use subagent_governance.Contract.{
  Manifest, Verification, TaskContract, NativeParameters, Business, Business-discrete,
}
use subagent_governance.Contract.Canon.{Canon}
use subagent_governance.Contract.Records.{to_record}
use subagent_governance.Contract.Verified.{validate_verification}
use subagent_governance.Contract.Input.{contract_from_input, contract_digest, spawn_digest}
use subagent_governance.Ledger.{Task, Prepared}
use subagent_governance.State.Fields.{StateIssue, fail_if, text_within}
use subagent_governance.State.{
  verification_issues, parameters_issues, contract_issues, capability_issues, prepared_issues,
  option_eq, is_done,
}
use subagent_governance.State.Sound.{
  Has, Within, IsRecordOf, IsCapability, IsCapable, HasCapability,
}

pub passes : (b : Bool) (i : StateIssue) → fail_if (not b) i ≡ [] → b ≡ true
passes b i h = ground (arith, h)

pub passing : (b : Bool) (i : StateIssue) → b ≡ true → fail_if (not b) i ≡ []
passing b i h = ground (arith, h)

option_eq_sound : (a b : Option Text) → option_eq a b ≡ true → a ≡ b
option_eq_sound none none h = refl
option_eq_sound (some a) (some b) h = ap some (text_eq_sound a b h)
option_eq_sound none (some b) h = absurd (cc)
option_eq_sound (some a) none h = absurd (cc)

option_eq_same : (a : Option Text) → option_eq a a ≡ true
option_eq_same none = refl
option_eq_same (some a) = text_eq_complete a a refl

business_sound : (a b : Business) → decide (Business-discrete a b) ≡ true → a ≡ b
unfolding decide
business_sound a b h = ground (arith, h)

business_same : (a : Business) → decide (Business-discrete a a) ≡ true
unfolding decide
business_same a = ground arith

done_sound : (r : Result (Unit {0})) → is_done r ≡ true → r ≡ ok tt
done_sound (ok u) h = refl
done_sound (err e) h = absurd (cc)

nothing_found : {I : Type 0} (xs : List I) → ltb 0 (length xs) ≡ false → xs ≡ []
nothing_found xs h = ground (arith, h)

module _ (canon : Canon) where
  verification-IsRecordOf :
      (m : Option Manifest) (v : Option Verification)
      → verification_issues canon m v ≡ []
      → IsRecordOf canon m v
  unfolding verification_issues
  verification-IsRecordOf none none h = IsRecordOf.nothing
  verification-IsRecordOf none (some v) h = absurd (cc)
  verification-IsRecordOf (some m) none h = absurd (cc)
  verification-IsRecordOf (some m) (some v) h =
      IsRecordOf.record_of m v
        (nothing_found (validate_verification canon.is_absolute m v) (ground (arith, h)))

  IsRecordOf-verification :
      (m : Option Manifest) (v : Option Verification)
      → IsRecordOf canon m v
      → verification_issues canon m v ≡ []
  unfolding verification_issues
  IsRecordOf-verification _ _ IsRecordOf.nothing = refl
  IsRecordOf-verification _ _ (IsRecordOf.record_of m v e) = rw e refl

  record Parameters (c : TaskContract) (e : NativeParameters) : Type 0 where
    name : Within (is_text 64) e.task_name
    named : Has e.task_name
    message : is_text 65536 e.message ≡ true
    fork_turns : e.fork_turns ≡ c.spawn.fork_turns
    model : e.model ≡ c.spawn.model
    effort : e.reasoning_effort ≡ c.spawn.reasoning_effort

  name_within : (o : Option Text) → text_within 64 o ≡ true → Within (is_text 64) o × Has o
  name_within none h = absurd (cc)
  name_within (some s) h = (h, tt)

  within_name : (o : Option Text) → Within (is_text 64) o → Has o → text_within 64 o ≡ true
  within_name none w h = absurd h
  within_name (some s) w h = w

  parameters_issues-Parameters :
      (c : TaskContract) (e : NativeParameters) → parameters_issues canon c e ≡ [] → Parameters c e
  unfolding parameters_issues
  parameters_issues-Parameters c e h =
      let named_ok = text_within 64 e.task_name && is_text 65536 e.message in
      let same_ok =
        text_eq e.fork_turns c.spawn.fork_turns
        && (option_eq e.model c.spawn.model
            && option_eq e.reasoning_effort c.spawn.reasoning_effort) in
      let (shape, rest) =
        append-eq-nil (fail_if (not named_ok) StateIssue.bad_parameters)
          (fail_if (not same_ok) StateIssue.bad_parameters) h in
      let (name, named) = name_within e.task_name (ground (arith, shape)) in
      record {
        name = name;
        named = named;
        message = ground (arith, shape);
        fork_turns = text_eq_sound e.fork_turns c.spawn.fork_turns (ground (arith, rest));
        model = option_eq_sound e.model c.spawn.model (ground (arith, rest));
        effort = option_eq_sound e.reasoning_effort c.spawn.reasoning_effort (ground (arith, rest));
      }

  Parameters-parameters_issues :
      (c : TaskContract) (e : NativeParameters) → Parameters c e → parameters_issues canon c e ≡ []
  unfolding parameters_issues
  Parameters-parameters_issues c e p =
      let name = within_name e.task_name p.name p.named in
      let turns = text_eq_complete e.fork_turns c.spawn.fork_turns p.fork_turns in
      let model = ap (λ m. option_eq e.model m) (sym p.model) ∙ option_eq_same e.model in
      let effort =
        ap (λ m. option_eq e.reasoning_effort m) (sym p.effort)
        ∙ option_eq_same e.reasoning_effort in
      ground (arith, name, p.message, turns, model, effort)

  module _ (t : Task) (p : Prepared) where
    contract-IsCapability :
        (c : TaskContract)
        → contract_from_input canon (to_record p.contract) ≡ ok c
        → contract_issues canon t p (ok c) ≡ []
        → IsCapability canon t p
    unfolding contract_issues
    contract-IsCapability c e h =
        let (spawn, h₁) = append-eq-nil _ _ h in
        let (verification, h₂) = append-eq-nil _ _ h₁ in
        let (parameters, h₃) = append-eq-nil _ _ h₂ in
        let (digest, h₄) = append-eq-nil _ _ h₃ in
        let (summary, native) = append-eq-nil _ _ h₄ in
        let found = parameters_issues-Parameters c p.expected_native_parameters parameters in
        record {
          contract = c;
          reading = e;
          spawn = text_eq_sound p.spawn_digest (spawn_digest canon c) (passes _ _ spawn);
          verification =
              verification-IsRecordOf c.business_record.context.verified p.context_verification
                verification;
          name = found.name;
          named = found.named;
          message = found.message;
          fork_turns = found.fork_turns;
          model = found.model;
          effort = found.effort;
          digest = text_eq_sound t.contract_digest (contract_digest canon c) (passes _ _ digest);
          summary = business_sound t.contract_summary c.business_record (passes _ _ summary);
          native = done_sound _ (passes _ _ native);
        }

    IsCapability-contract :
        (k : IsCapability canon t p) → contract_issues canon t p (ok k.contract) ≡ []
    unfolding contract_issues
    IsCapability-contract k =
        let c = k.contract in
        let parameters : Parameters c p.expected_native_parameters = record {
          name = k.name;
          named = k.named;
          message = k.message;
          fork_turns = k.fork_turns;
          model = k.model;
          effort = k.effort;
        } in
        let same =
          ap (λ b. decide (Business-discrete t.contract_summary b)) (sym k.summary)
          ∙ business_same t.contract_summary in
        nil-append-nil _ _
          (passing _ _ (text_eq_complete p.spawn_digest (spawn_digest canon c) k.spawn))
          (nil-append-nil _ _
            (IsRecordOf-verification c.business_record.context.verified p.context_verification
              k.verification)
            (nil-append-nil _ _
              (Parameters-parameters_issues c p.expected_native_parameters parameters)
              (nil-append-nil _ _
                (passing _ _
                  (text_eq_complete t.contract_digest (contract_digest canon c) k.digest))
                (nil-append-nil _ _ (passing _ _ same) (passing _ _ (ap is_done k.native))))))

    contract_issues-IsCapability :
        (r : Result TaskContract)
        → contract_from_input canon (to_record p.contract) ≡ r
        → contract_issues canon t p r ≡ []
        → IsCapability canon t p
    unfolding contract_issues
    contract_issues-IsCapability (ok c) e h = contract-IsCapability c e h
    contract_issues-IsCapability (err x) e h = absurd (cc)

  capability-IsCapable :
      (t : Task) (o : Option Prepared) → capability_issues canon t o ≡ [] → IsCapable canon t o
  unfolding capability_issues
  capability-IsCapable t none h = absurd (cc)
  capability-IsCapable t (some p) h = contract_issues-IsCapability t p _ refl h

  IsCapable-capability :
      (t : Task) (o : Option Prepared) → IsCapable canon t o → capability_issues canon t o ≡ []
  unfolding capability_issues
  IsCapable-capability t none k = absurd k
  IsCapable-capability t (some p) k = rw k.reading (IsCapability-contract t p k)

  pub prepared-HasCapability :
      (q : Phase) (t : Task) → prepared_issues canon q t ≡ [] → HasCapability canon q t
  unfolding prepared_issues
  prepared-HasCapability Phase.prepared t h = capability-IsCapable t t.prepared h
  prepared-HasCapability Phase.claimed t h = capability-IsCapable t t.prepared h
  prepared-HasCapability Phase.bound t h = tt
  prepared-HasCapability Phase.terminal t h = tt
  prepared-HasCapability Phase.reconcile t h = tt
  prepared-HasCapability Phase.closed t h = tt

  pub HasCapability-prepared :
      (q : Phase) (t : Task) → HasCapability canon q t → prepared_issues canon q t ≡ []
  unfolding prepared_issues
  HasCapability-prepared Phase.prepared t k = IsCapable-capability t t.prepared k
  HasCapability-prepared Phase.claimed t k = IsCapable-capability t t.prepared k
  HasCapability-prepared Phase.bound t k = refl
  HasCapability-prepared Phase.terminal t k = refl
  HasCapability-prepared Phase.reconcile t k = refl
  HasCapability-prepared Phase.closed t k = refl
