-- ===== src/Store/Reading.antt =====
-- What an update of the store of governance_state_store.py that returns has stored.
use mathlib.Core.Path.{sym}
use subagent_governance.Base.{
  ◌∙◌, Text, ◌≡◌, ◌≤◌, refl, arith, true, Result, ok, err, Error, leb, ◌>>◌, guard, text_eq,
  Result-cases, inl, inr, >>=-eq-ok,
}
use subagent_governance.Semantics.{max_state_bytes}
use subagent_governance.Ledger.{Ledger}
use subagent_governance.State.{require_current_state_format}
use subagent_governance.Store.{
  Contents, WriteFault, Admission, Encoding, update, compare_and_set, apply_and_write, write_path,
  check_write, read_path, admitted, returning,
}

module _ (encoding : Encoding) (session_id : Text) where
  -- What was written is read back, and it fits the limit of a file.
  abbrev pub Readable : Ledger → Type 0
  Readable l =
      (read_path encoding session_id (Contents.stored l) ≡ ok l)
      × (encoding.encoded_size l ≤ max_state_bytes)

  require-same : (l m : Ledger) → require_current_state_format encoding.canon l ≡ ok m → m ≡ l
  unfolding require_current_state_format
  require-same l m h = ground arith

  size_of :
      (admission : Admission) (l m : Ledger)
      → m ≡ l
      → (admitted encoding admission (encoding.encoded_size m)
          >> guard (leb (encoding.encoded_size m) max_state_bytes) Error.state_capacity)
        ≡ ok tt
      → encoding.encoded_size l ≤ max_state_bytes
  size_of admission l m e h = ground arith

  pub check_write-Readable :
      (admission : Admission) (l : Ledger)
      → check_write encoding session_id admission l ≡ ok tt
      → Readable l
  unfolding check_write read_path
  check_write-Readable admission l h =
      let (_, session, h₁) =
        >>=-eq-ok (guard (text_eq l.session_id session_id) Error.state_validation) _ h in
      let (m, valid, h₂) = >>=-eq-ok (require_current_state_format encoding.canon l) _ h₁ in
      let e = require-same l m valid in
      (ground (arith, session, valid, e), size_of admission l m e h₂)

module _ (encoding : Encoding) (fault : WriteFault) (session_id : Text) (admission : Admission)
    {A : Type 0} (callback : Ledger → Result (Ledger × A)) (file file' : Contents) (a : A) where
  written-Readable :
      (l : Ledger)
      → write_path encoding fault session_id admission l file ≡ (ok tt, file')
      → (file' ≡ Contents.stored l) × Readable encoding session_id l
  unfolding write_path
  written-Readable l h = elim (Result-cases (check_write encoding session_id admission l)) [
    | inl (u, e) ↦ (ground arith, check_write-Readable encoding session_id admission l e)
    | inr (d, e) ↦ absurd (ground arith)
  ]

  -- The ledger that was read, the one that the callback made of it, and where it is now.
  pub record Stored : Type 0 where
    pub before : Ledger
    pub after : Ledger
    pub reading : read_path encoding session_id file ≡ ok before
    pub calling : callback before ≡ ok (after, a)
    pub writing : file' ≡ Contents.stored after
    pub readable : Readable encoding session_id after

  returned :
      (b : A) (r : Result (Unit {0}) × Contents)
      → returning encoding b r ≡ (ok a, file')
      → (b ≡ a) × (r ≡ (ok tt, file'))
  returned b (ok u, f) h = (ground arith, ground arith)
  returned b (err e, f) h = absurd (ground arith)

  applied-Stored :
      (l l' : Ledger) (b : A)
      → read_path encoding session_id file ≡ ok l
      → callback l ≡ ok (l', b)
      → apply_and_write encoding fault session_id admission (λ x. true) callback l file
        ≡ (ok a, file')
      → Stored
  unfolding apply_and_write
  applied-Stored l l' b r c h =
      let (same, e) = returned b _ (rw c at h) in
      let (writing, readable) = written-Readable l' e in
      record {
        before = l;
        after = l';
        reading = r;
        calling = rw c (rw same refl);
        writing = writing;
        readable = readable;
      }

  update-reads :
      (l : Ledger)
      → read_path encoding session_id file ≡ ok l
      → update encoding fault session_id admission callback file
        ≡ apply_and_write encoding fault session_id admission (λ x. true) callback l file
  unfolding update compare_and_set
  update-reads l e = ground (arith, e)

  refused :
      (l : Ledger) (d : Error)
      → callback l ≡ err d
      → apply_and_write encoding fault session_id admission (λ x. true) callback l file
        ≡ (ok a, file')
      → ⊥
  unfolding apply_and_write
  refused l d c h = cc (rw c at h)

  -- An update that returns has stored the ledger that its callback made of the ledger read before,
  -- and reading the file again returns that ledger, which fits the limit of a file.
  pub update-Stored :
      update encoding fault session_id admission callback file ≡ (ok a, file') → Stored
  unfolding update compare_and_set
  update-Stored h = elim (Result-cases (read_path encoding session_id file)) [
    | inr (d, e) ↦ absurd (ground arith)
    | inl (l, e) ↦ elim (Result-cases (callback l)) [
      | inr (d, c) ↦ absurd (refused l d c (sym (update-reads l e) ∙ h))
      | inl ((l', b), c) ↦ applied-Stored l l' b e c (sym (update-reads l e) ∙ h)
    ]
  ]
