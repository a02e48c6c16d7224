-- ===== src/Store.antt =====
-- scripts/governance_state_store.py over scripts/governance_storage.py: one Session's file, read and
-- replaced under its lock. What json, the file system and the lock do is given: the contents as they
-- decode, the size of the encoded ledger, and the point at which a write fails, if it does.
pub mod Writes
pub mod Reading
use subagent_governance.Base.{
  ℕ, Text, strip, text_eq, Option, none, some, Bool, true, false, [], ◌||◌, if◌then◌else◌, leb, ltb,
  length, Result, ok, err, Error, guard, ◌>>=◌, ◌>>◌,
}
use subagent_governance.Semantics.{
  max_state_bytes, max_tasks_per_session, new_task_soft_limit_bytes,
}
use subagent_governance.Contract.Canon.{Canon}
use subagent_governance.Ledger.{Ledger}
use subagent_governance.State.{require_current_state_format}

-- A file that is not there, one that decodes to a ledger, and one whose reading raises: it is too
-- large, unsafe to open, not JSON or not of the ledger's form.
pub data Contents : Type 0 where
  missing : Contents
  stored : Ledger → Contents
  unreadable : Error → Contents

-- How a write ends: as it should, with an error before the file is replaced, or with an error after
-- it, from the directory's sync or from the readback.
pub data WriteFault : Type 0 where
  no_fault before_replace after_replace : WriteFault

pub data Admission : Type 0 where
  existing new_task : Admission

-- What the store takes from outside: the canonical JSON of the validator, and the length of
-- `_encoded_state`.
pub record Encoding : Type 0 where
  pub canon : Canon
  pub encoded_size : Ledger → ℕ

-- `_empty_state`
abbrev pub empty_state : Text → Ledger
empty_state session_id = record { session_id = session_id; tasks = [] }

module _ (encoding : Encoding) where
  -- `_read_path` with `_decode_state`
  unfoldable pub read_path : Text → Contents → Result Ledger
  read_path session_id Contents.missing = ok (empty_state session_id)
  read_path session_id (Contents.unreadable e) = err e
  read_path session_id (Contents.stored l) = do
    guard (text_eq l.session_id session_id) Error.state_validation
    require_current_state_format encoding.canon l

  -- new_task_exceeds_capacity
  unfoldable pub new_task_exceeds_capacity : Ledger → Bool
  new_task_exceeds_capacity l =
      ltb max_tasks_per_session (length l.tasks)
      || ltb new_task_soft_limit_bytes (encoding.encoded_size l)

  unfoldable pub admitted : Admission → ℕ → Result (Unit {0})
  admitted Admission.existing n = ok tt
  admitted Admission.new_task n = guard (leb n new_task_soft_limit_bytes) Error.state_capacity

  -- The checks of `_write_path` before anything is written.
  unfoldable pub check_write : Text → Admission → Ledger → Result (Unit {0})
  unfolding admitted
  check_write session_id admission l = do
    guard (text_eq l.session_id session_id) Error.state_validation
    l_valid ← require_current_state_format encoding.canon l
    admitted admission (encoding.encoded_size l_valid)
    guard (leb (encoding.encoded_size l_valid) max_state_bytes) Error.state_capacity

  replace : WriteFault → Ledger → Contents → Result (Unit {0}) × Contents
  replace WriteFault.no_fault l file = (ok tt, Contents.stored l)
  replace WriteFault.before_replace l file = (err Error.state_write, file)
  replace WriteFault.after_replace l file = (err Error.state_write, Contents.stored l)

  -- `_write_path`: the file afterwards comes back with the result.
  unfoldable pub write_path :
      WriteFault → Text → Admission → Ledger → Contents → Result (Unit {0}) × Contents
  unfolding check_write replace
  write_path fault session_id admission l file = elim (check_write session_id admission l) [
    | err e ↦ (err e, file)
    | ok _ ↦ replace fault l file
  ]

  abbrev pub returning : {A : Type 0} → A → Result (Unit {0}) × Contents → Result A × Contents
  returning a (ok _, file) = (ok a, file)
  returning a (err e, file) = (err e, file)

  -- The part of compare_and_set behind the read.
  unfoldable pub apply_and_write :
      {A : Type 0}
      → WriteFault
      → Text
      → Admission
      → (Ledger → Bool)
      → (Ledger → Result (Ledger × A))
      → Ledger
      → Contents
      → Result A × Contents
  unfolding write_path
  apply_and_write fault session_id admission predicate callback l file =
      elim (do guard (predicate l) Error.state_conflict; callback l) [
        | err e ↦ (err e, file)
        | ok (l', a) ↦ returning a (write_path fault session_id admission l' file)
      ]

  unfoldable pub compare_and_set :
      {A : Type 0}
      → WriteFault
      → Text
      → Admission
      → (Ledger → Bool)
      → (Ledger → Result (Ledger × A))
      → Contents
      → Result A × Contents
  unfolding read_path apply_and_write
  compare_and_set fault session_id admission predicate callback file =
      elim (read_path session_id file) [
        | err e ↦ (err e, file)
        | ok l ↦ apply_and_write fault session_id admission predicate callback l file
      ]

  -- StateStore.update
  unfoldable pub update :
      {A : Type 0}
      → WriteFault
      → Text
      → Admission
      → (Ledger → Result (Ledger × A))
      → Contents
      → Result A × Contents
  unfolding compare_and_set
  update fault session_id admission callback file =
      compare_and_set fault session_id admission (λ l. true) callback file

  -- read_ledger_readonly: no file is no ledger, and nothing is created.
  unfoldable pub read_ledger_readonly : Text → Contents → Result (Option Ledger)
  unfolding read_path
  read_ledger_readonly session_id Contents.missing = ok none
  read_ledger_readonly session_id file =
      if leb (length (strip session_id)) 0
      then ok none
      else do l ← read_path session_id file; ok (some l)

  abbrev delete_at : (Ledger → Bool) → Ledger → Contents → Bool × Contents
  delete_at predicate l Contents.missing = (false, Contents.missing)
  delete_at predicate l file = if predicate l then (true, Contents.missing) else (false, file)

  -- delete_if
  unfoldable pub delete_if : Text → (Ledger → Bool) → Contents → Result Bool × Contents
  unfolding read_path
  delete_if session_id predicate file = elim (read_path session_id file) [
    | err e ↦ (err e, file)
    | ok l ↦ let (deleted, file') = delete_at predicate l file in (ok deleted, file')
  ]
