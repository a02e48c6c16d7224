-- ===== src/Protocol/Fresh.antt =====
-- The task that prepare_dispatch of scripts/governance_protocol.py puts in the ledger.
use subagent_governance.Base.{
  ℕ, ◌+◌, Text, is_text, lookup, ◌≡◌, arith, Option, none, some, true, false, Option-cases, inl,
  inr, List, [], ◌∷◌, Result, ok, Error, guard, >>=-eq-ok, refl, sym, ◌∙◌, Dict, insert, text_eq,
  text_eq_complete, Bool-cases, lookup-insert_self, lookup-insert_ne,
}
use subagent_governance.Json.{mem_text}
use subagent_governance.Semantics.{Phase, NativeInterface, prepared_expiry_seconds}
use subagent_governance.Contract.{Manifest, Verification, TaskContract}
use subagent_governance.Identity.{Hashing, is_task_ref, select_task_ref, build_task_name}
use subagent_governance.Identity.Fresh.{IsHex, select_task_ref-free}
use subagent_governance.Inputs.{operation_inputs}
use subagent_governance.Ledger.{Task, Ledger, Prepared, put_task}
use subagent_governance.Retention.{prune_closed_tasks}
use subagent_governance.Retention.Open.{Unique, prune_closed_tasks-open}
use subagent_governance.Rendering.{spawn_args, expected_native_parameters}
use subagent_governance.Contract.Input.{spawn_digest}
use subagent_governance.Store.{Encoding, new_task_exceeds_capacity}
use subagent_governance.Protocol.{
  Preparation, refs_of, chosen, at_most_two, pick, initial_task_record, prepare_in_ledger,
}

-- An identity that is in no task of the ledger, and whose reference has the right form.
pub record IsNew (l : Ledger) (task_id task_ref : Text) : Type 0 where
  pub key : is_text 256 task_id ≡ true
  pub absent : lookup task_id l.tasks ≡ none
  pub free : mem_text task_ref (refs_of l.tasks) ≡ false
  pub form : is_task_ref task_ref ≡ true

module _ (hashing : Hashing) (hex : IsHex hashing) (l : Ledger) where
  selected-IsNew :
      (candidate task_id task_ref : Text) (r : Option Text) (rest : Result (Text × Text))
      → is_text 256 candidate ≡ true
      → lookup candidate l.tasks ≡ none
      → select_task_ref hashing candidate (refs_of l.tasks) ≡ ok r
      → (rest ≡ ok (task_id, task_ref) → IsNew l task_id task_ref)
      → chosen candidate r rest ≡ ok (task_id, task_ref)
      → IsNew l task_id task_ref
  unfolding chosen
  selected-IsNew c task_id task_ref none rest key absent e later h = later h
  selected-IsNew c task_id task_ref (some ref) rest key absent e later h =
      let same_id : c ≡ task_id = cc in
      let same_ref : ref ≡ task_ref = cc in
      let (free, form) = select_task_ref-free hashing c ref (refs_of l.tasks) hex e in
      record {
        key = rw same_id at key;
        absent = rw same_id at absent;
        free = rw same_ref at free;
        form = rw same_ref at form;
      }

  pick-IsNew :
      (candidates : List Text) (task_id task_ref : Text)
      → pick hashing l candidates ≡ ok (task_id, task_ref)
      → IsNew l task_id task_ref
  unfolding pick
  pick-IsNew [] task_id task_ref h = absurd (cc)
  pick-IsNew (c ∷ cs) task_id task_ref h =
      let (_, key, h₁) = >>=-eq-ok (guard (is_text 256 c) Error.dispatch_preparation) _ h in
      elim (Option-cases (lookup c l.tasks)) [
        | inr (t, there) ↦ pick-IsNew cs task_id task_ref (rw there at h₁)
        | inl absent ↦
            let (r, selected, h₂) =
              >>=-eq-ok (select_task_ref hashing c (refs_of l.tasks)) _ (rw absent at h₁) in
            selected-IsNew c task_id task_ref r (pick hashing l cs) (ground (arith, key)) absent
              selected (pick-IsNew cs task_id task_ref) h₂
      ]

insert-Unique :
    (k : Text) (t : Task) (d : Dict Task) → lookup k d ≡ none → Unique d → Unique (insert k t d)
unfolding insert lookup
insert-Unique k t [] absent u = (refl, tt)
insert-Unique k t ((j, w) ∷ d) absent (first, u) = elim (Bool-cases (text_eq j k)) [
  | inl same ↦ absurd (ground (arith, same, absent))
  | inr other ↦
      let behind : lookup k d ≡ none = ground (arith, other, absent) in
      let still =
        lookup-insert_ne k j t d (λ e. ground (arith, text_eq_complete j k (sym e), other)) in
      rw other (still ∙ first, insert-Unique k t d behind u)
]

-- The ledger holds the task that the answer tells of: it is new, prepared with the contract, and
-- expires when the answer says, which is a fixed period after its creation.
pub record IsPrepared (c : TaskContract) (now : ℕ) (l l' : Ledger) (p : Preparation) : Type 0 where
  pub new : IsNew l p.task_id p.task_ref
  pub task : Task
  pub capability : Prepared
  pub stored : lookup p.task_id l'.tasks ≡ some task
  pub same_ref : task.task_ref ≡ p.task_ref
  pub phase : task.phase ≡ Phase.prepared
  pub created : task.created_at ≡ now
  pub prepared : task.prepared ≡ some capability
  pub contract : capability.contract ≡ c
  pub expiry : capability.expires_at ≡ p.expires_at
  pub period : p.expires_at ≡ now + prepared_expiry_seconds

module _ (encoding : Encoding) (hashing : Hashing) (verify : Manifest → Result Verification)
    (interface : NativeInterface) (now : ℕ) (c : TaskContract)
    (verification : Option Verification) where
  -- A task that is prepared gets an identity that was in no task of the ledger and a reference that
  -- was the reference of none, of the form of a task reference; the ledger that is stored holds under
  -- this identity a prepared task of this reference with the contract, and it expires when the answer
  -- says, the fixed period after its creation; where no key stood twice in the ledger and the hash
  -- returns at least 20 hexadecimal digits.
  pub prepare_in_ledger-IsPrepared :
      IsHex hashing
      → (candidates : List Text) (l l' : Ledger) (p : Preparation) → Unique l.tasks
      → prepare_in_ledger encoding hashing verify interface now c verification candidates l
        ≡ ok (l', p)
      → IsPrepared c now l l' p
  unfolding prepare_in_ledger initial_task_record
  prepare_in_ledger-IsPrepared hex candidates l l' p unique h =
      let (found, picked, h₁) = >>=-eq-ok (pick hashing l (at_most_two candidates)) _ h in
      let new = pick-IsNew hashing hex l (at_most_two candidates) found.0 found.1 picked in
      let (task_name, built, h₂) = >>=-eq-ok (build_task_name hashing _ _ found.1) _ h₁ in
      let (native, shown, h₃) = >>=-eq-ok (spawn_args c task_name verification interface) _ h₂ in
      let t =
        initial_task_record encoding.canon found.1 c task_name verification now interface
          (now + prepared_expiry_seconds) in
      let (inputs, offered, h₅) = >>=-eq-ok (operation_inputs found.0 t) _ h₃ in
      let capability : Prepared = record {
        contract = c;
        context_verification = verification;
        expected_native_parameters = expected_native_parameters c task_name verification;
        spawn_digest = spawn_digest encoding.canon c;
        expires_at = now + prepared_expiry_seconds;
      } in
      let same_id : found.0 ≡ p.task_id = ground (arith, h₅) in
      let same_ref : found.1 ≡ p.task_ref = ground (arith, h₅) in
      let kept =
        prune_closed_tasks-open (new_task_exceeds_capacity encoding) (put_task found.0 t l) found.0
          t (insert-Unique found.0 t l.tasks new.absent unique)
          (lookup-insert_self found.0 t l.tasks) (λ q. ground (arith, q)) in
      let ledger : (prune_closed_tasks (new_task_exceeds_capacity encoding)
            (put_task found.0 t l)).0
          ≡ l' =
        ground (arith, h₅) in
      record {
        new = rw same_id at (rw same_ref at new);
        task = t;
        capability = capability;
        stored = rw (sym same_id, sym ledger) kept;
        same_ref = same_ref;
        phase = refl;
        created = refl;
        prepared = refl;
        contract = refl;
        expiry = ground (arith, h₅);
        period = ground (arith, h₅);
      }
