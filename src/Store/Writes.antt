-- ===== src/Store/Writes.antt =====
-- What an update of the store of governance_state_store.py leaves in the file.
use subagent_governance.Base.{Text, ◌≡◌, ◌≢◌, arith, true, Result, err, Error}
use subagent_governance.Ledger.{Ledger}
use subagent_governance.Store.{
  Contents, WriteFault, Admission, Encoding, update, compare_and_set, apply_and_write, write_path,
}

module _ (encoding : Encoding) (fault : WriteFault) (session_id : Text)
    (admission : Admission) where
  write_path-keeps :
      (l : Ledger) (file file' : Contents) (e : Error)
      → fault ≢ WriteFault.after_replace
      → write_path encoding fault session_id admission l file ≡ (err e, file')
      → file' ≡ file
  unfolding write_path
  write_path-keeps l file file' e h w = ground arith

  apply-keeps :
      {A : Type 0} (callback : Ledger → Result (Ledger × A)) (l : Ledger) (file file' : Contents)
      (e : Error)
      → fault ≢ WriteFault.after_replace
      → apply_and_write encoding fault session_id admission (λ x. true) callback l file
        ≡ (err e, file')
      → file' ≡ file
  unfolding apply_and_write write_path
  apply-keeps callback l file file' e h w = ground arith

  -- An update that ends with an error leaves the file as it was, unless the write failed after the
  -- file was replaced.
  pub update-error_keeps :
      {A : Type 0} (callback : Ledger → Result (Ledger × A)) (file file' : Contents) (e : Error)
      → fault ≢ WriteFault.after_replace
      → update encoding fault session_id admission callback file ≡ (err e, file')
      → file' ≡ file
  unfolding update compare_and_set
  update-error_keeps callback file file' e h w = ground (arith, apply-keeps callback)
