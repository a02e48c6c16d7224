-- ===== src/Dispatch/Committed.antt =====
-- claim_spawn of governance_dispatch.py on a session's file: a claim that returns is in the file.
use subagent_governance.Dispatch.Recorded.{
  HasUniqueKeys, IsClaimed, claim_in_ledger-IsClaimed, committed_claim-IsClaimed, read-Unique,
}
use subagent_governance.Base.{
  ℕ, Text, strip, length, leb, ◌&&◌, ◌≡◌, refl, arith, Bool-cases, inl, inr, Result, ok, err,
  Result-cases, >>=-eq-ok, sym, ◌∙◌,
}
use subagent_governance.Json.{Value}
use subagent_governance.Contract.{Manifest, Verification}
use subagent_governance.Ledger.{Ledger}
use subagent_governance.Lifecycle.{Outcome}
use subagent_governance.Dispatch.Claim.{
  claim_in_ledger, update_claim, claim_spawn, written_outcome, with_recovery, read_again,
}
use subagent_governance.Store.{
  Contents, WriteFault, Admission, Encoding, read_path, write_path, check_write,
}
use subagent_governance.Store.Reading.{check_write-Readable}

module _ (encoding : Encoding) (verify : Manifest → Result Verification) (fault : WriteFault)
    (now : ℕ) (session_id task_ref tool_use_id : Text) (tool_input : Value) where
  -- The file reads as a ledger in which this call has claimed the one task of the reference.
  pub record HoldsClaim (file : Contents) : Type 0 where
    pub ledger : Ledger
    pub reading : read_path encoding session_id file ≡ ok ledger
    pub claim : IsClaimed encoding.canon verify now task_ref tool_use_id tool_input ledger

  written-HoldsClaim :
      (l : Ledger) (o o' : Outcome) (file file' : Contents)
      → IsClaimed encoding.canon verify now task_ref tool_use_id tool_input l
      → written_outcome encoding verify fault now session_id task_ref tool_use_id tool_input o
          (write_path encoding fault session_id Admission.existing l file)
        ≡ (ok o', file')
      → HoldsClaim file'
  unfolding write_path
  written-HoldsClaim l o o' file file' c h =
      elim (Result-cases (check_write encoding session_id Admission.existing l)) [
        | inr (d, e) ↦ absurd (ground arith)
        | inl (tt, e) ↦
            let (readable, _) = check_write-Readable encoding session_id Admission.existing l e in
            let same : file' ≡ Contents.stored l = ground (arith, e, h) in
            rw same (record { ledger = l; reading = readable; claim = c })
      ]

  updated-HoldsClaim :
      (o : Outcome) (file file' : Contents)
      → HasUniqueKeys file
      → update_claim encoding verify fault now session_id task_ref tool_use_id tool_input file
        ≡ (ok o, file')
      → HoldsClaim file'
  unfolding update_claim
  updated-HoldsClaim o file file' unique h =
      elim (Result-cases (read_path encoding session_id file)) [
        | inr (d, e) ↦ absurd (ground arith)
        | inl (l, e) ↦
            elim (Result-cases
              (claim_in_ledger encoding.canon verify now task_ref tool_use_id tool_input l)) [
                | inr (d, c) ↦ absurd (ground (arith, e, c, h))
                | inl ((l', o'), c) ↦
                    written-HoldsClaim l' o' o file file'
                      (claim_in_ledger-IsClaimed encoding.canon verify now task_ref tool_use_id
                        tool_input l l' o' (read-Unique encoding session_id file l unique e) c)
                      (ground (arith, e, c, h))
              ]
      ]

  again-HoldsClaim :
      (o : Outcome) (file : Contents)
      → read_again encoding verify fault now session_id task_ref tool_use_id tool_input file ≡ ok o
      → HoldsClaim file
  unfolding read_again
  again-HoldsClaim o file h =
      let (l, reading, h₁) = >>=-eq-ok (read_path encoding session_id file) _ h in
      record {
        ledger = l;
        reading = reading;
        claim =
            committed_claim-IsClaimed encoding.canon verify now task_ref tool_use_id tool_input l o
              h₁;
      }

  recovered-HoldsClaim :
      (o : Outcome) (file file' : Contents) (r : Result Outcome × Contents)
      → update_claim encoding verify fault now session_id task_ref tool_use_id tool_input file ≡ r
      → HasUniqueKeys file
      → with_recovery encoding verify fault now session_id task_ref tool_use_id tool_input r
        ≡ (ok o, file')
      → HoldsClaim file'
  recovered-HoldsClaim o file file' (ok o', f) e unique h =
      updated-HoldsClaim o file file' unique (e ∙ (ground (arith, h)))
  recovered-HoldsClaim o file file' (err d, f) e unique h =
      elim (Result-cases
        (read_again encoding verify fault now session_id task_ref tool_use_id tool_input f)) [
          | inr (d', c) ↦ absurd (ground (arith, c, h))
          | inl (o', c) ↦
              let same : f ≡ file' = ground (arith, c, h) in rw (sym same) (again-HoldsClaim o' f c)
        ]

  -- A claim_spawn that returns, be it after an error of the write, leaves a file that reads as a
  -- ledger in which this call has claimed the one task of the reference, where the keys of the
  -- ledger were different.
  pub claim_spawn-HoldsClaim :
      (o : Outcome) (file file' : Contents)
      → HasUniqueKeys file
      → claim_spawn encoding verify fault now session_id task_ref tool_use_id tool_input file
        ≡ (ok o, file')
      → HoldsClaim file'
  unfolding claim_spawn
  claim_spawn-HoldsClaim o file file' unique h =
      elim (Bool-cases (leb 1 (length (strip tool_use_id)) && leb (length tool_use_id) 1024)) [
        | inr bad ↦ absurd (ground (arith, bad, h))
        | inl good ↦ recovered-HoldsClaim o file file' _ refl unique (ground (arith, good, h))
      ]
