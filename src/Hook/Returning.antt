-- ===== src/Hook/Returning.antt =====
-- How handle_hook of governance_hook.py ends.
use subagent_governance.Base.{
  ℕ, Text, codes, strip, text_eq, leb, length, ◌≡◌, refl, sym, arith, Option, none, some,
  Bool-cases, true, inl, inr, Result, ok, err, Error, ◌⊎◌, Result-cases, >>=-eq-ok, guard, ◌||◌,
  List, [], ◌++◌, if◌then◌else◌, Bool, false,
}
use subagent_governance.Json.{Value, Fields, get}
use subagent_governance.Contract.{Manifest, Verification}
use subagent_governance.Contract.Canon.{Canon}
use subagent_governance.Ledger.{Ledger}
use subagent_governance.State.{validate_current_state_format, require_current_state_format}
use subagent_governance.State.Ledgers.{IsValidLedger, validate_current_state_format-IsValidLedger}
use subagent_governance.Store.{Contents, WriteFault, Encoding, read_path, read_ledger_readonly}
use subagent_governance.Diagnostics.Complete.{project_status-seen}
use subagent_governance.Hook.Summary.{
  unreadable_lines, summary_of, session_summary, views_of, open_lines, open_tasks,
}
use subagent_governance.Hook.Events.{
  Surroundings, start_reply, head_lines, child_lines, event_lines, start_at, replied, handle_event,
  start_context, handle_hook,
}
use subagent_governance.Hook.{Decision, reply_of, present, pre_tool_use}

-- The run ends with a value.
abbrev Returns : {A : Type 0} → Result A → Type 0
Returns {A} r = (a : A) × (r ≡ ok a)

if-cases : {A : Type 0} (P : A → Type 0) (b : Bool) {x y : A} → P x → P y → P (if b then x else y)
if-cases P true p q = p
if-cases P false p q = q

required-IsValidLedger :
    (canon : Canon) (l m : Ledger)
    → require_current_state_format canon l ≡ ok m
    → IsValidLedger canon m
unfolding require_current_state_format
required-IsValidLedger canon l m h =
    elim (Bool-cases (leb (length (validate_current_state_format canon l)) 0)) [
      | inr bad ↦ absurd (ground (arith, bad, h))
      | inl good ↦
          let same : l ≡ m = ground (arith, good, h) in
          rw (sym same) (validate_current_state_format-IsValidLedger canon l (length-eq-nil _ good))
    ]
  where
    length-eq-nil : {A : Type 0} (xs : List A) → leb (length xs) 0 ≡ true → xs ≡ []
    length-eq-nil xs h = ground (arith, h)

module _ (encoding : Encoding) where
  pub read_path-IsValidLedger :
      (session_id : Text) (file : Contents) (l : Ledger)
      → (file ≡ Contents.missing → ⊥)
      → read_path encoding session_id file ≡ ok l
      → IsValidLedger encoding.canon l
  unfolding read_path
  read_path-IsValidLedger session_id Contents.missing l there h = absurd (there refl)
  read_path-IsValidLedger session_id (Contents.unreadable e) l there h = absurd (cc)
  read_path-IsValidLedger session_id (Contents.stored m) l there h =
      let (_, same, h₁) =
        >>=-eq-ok (guard (text_eq m.session_id session_id) Error.state_validation) _ h in
      required-IsValidLedger encoding.canon m l h₁

  readonly-IsValidLedger :
      (session_id : Text) (file : Contents) (l : Ledger)
      → read_ledger_readonly encoding session_id file ≡ ok (some l)
      → IsValidLedger encoding.canon l
  unfolding read_ledger_readonly
  readonly-IsValidLedger session_id Contents.missing l h = absurd (cc)
  readonly-IsValidLedger session_id (Contents.unreadable e) l h =
      elim (Bool-cases (leb (length (strip session_id)) 0)) [
        | inl blank ↦ absurd (ground (arith, blank, h))
        | inr named ↦ absurd (ground (arith, named, h))
      ]
  readonly-IsValidLedger session_id (Contents.stored m) l h =
      elim (Bool-cases (leb (length (strip session_id)) 0)) [
        | inl blank ↦ absurd (ground (arith, blank, h))
        | inr named ↦
            let (l', read, last) =
              >>=-eq-ok (read_path encoding session_id (Contents.stored m)) _ (rw named at h) in
            let same : l' ≡ l = ground (arith, last) in
            rw (sym same) (read_path-IsValidLedger session_id (Contents.stored m) l' (λ e. cc) read)
      ]

  summary_of-Returns :
      (now : ℕ) (session_id : Text) (file : Contents)
      → Returns (summary_of encoding now (read_ledger_readonly encoding session_id file))
  unfolding summary_of views_of
  summary_of-Returns now session_id file =
      elim (Result-cases (read_ledger_readonly encoding session_id file)) [
        | inr (e, r) ↦ (unreadable_lines, ground (arith, r))
        | inl (none, r) ↦ (open_lines (open_tasks []), ground (arith, r))
        | inl (some l, r) ↦
            let valid = readonly-IsValidLedger session_id file l r in
            let (vs, shown, sorted, same) = project_status-seen encoding.canon now l valid in
            (open_lines (open_tasks vs), ground (arith, r, shown))
      ]

-- The run ends with a value, or with the error of the choice of the data directory.
abbrev Ends : {A : Type 0} → Result (Unit {0}) → Result A → Type 0
Ends data_root r = Returns r ⊎ ((e : Error) × (r ≡ err e) × (data_root ≡ err e))

module _ (around : Surroundings) (encoding : Encoding) where
  session_summary-Ends :
      (now : ℕ) (session_id : Text) (root : Result (Unit {0})) (file : Contents)
      → Ends root (session_summary encoding now root session_id file)
  unfolding session_summary
  session_summary-Ends now session_id (err e) file = inr (e, refl, refl)
  session_summary-Ends now session_id (ok found) file =
      inl (summary_of-Returns encoding now session_id file)

  event_lines-Ends :
      (event session_id : Text) (now : ℕ) (file : Contents)
      → Ends around.data_root (event_lines around encoding now event session_id file)
  unfolding event_lines
  event_lines-Ends event session_id now file =
      if-cases (Ends around.data_root) (text_eq event (codes "SubagentStart"))
        (inl (child_lines around, refl)) (session_summary-Ends now session_id around.data_root file)

  start_at-Ends :
      (event : Text) (session : Option Text) (now : ℕ) (file : Contents)
      → Ends around.data_root (start_at around encoding now event session file)
  unfolding start_at
  start_at-Ends event none now file = inl (none, refl)
  start_at-Ends event (some session_id) now file =
      elim (event_lines-Ends event session_id now file) [
        | inl (lines, e) ↦ inl (
          some (start_reply around event (head_lines around session_id ++ lines)),
          ground (arith, e),
        )
        | inr (x, e, r) ↦ inr (x, ground (arith, e), r)
      ]

module _ (around : Surroundings) (encoding : Encoding) (verify : Manifest → Result Verification)
    (fault : WriteFault) (opening : Result (Unit {0})) (clock : ℕ) where
  abbrev Replies : Result (Option Value) × Contents → Type 0
  Replies r = Ends around.data_root (r.0)

  replied-Replies :
      (r : Option Decision × Contents)
      → Replies (replied around encoding verify fault opening clock r)
  unfolding replied
  replied-Replies (none, file) = inl (none, refl)
  replied-Replies (some d, file) = inl (some (reply_of d), refl)

  handle_event-Replies :
      (event : Value) (payload : Fields) (file : Contents)
      → Replies (handle_event around encoding verify fault opening clock event payload file)
  unfolding handle_event start_context
  handle_event-Replies (Value.str event) payload file =
      if-cases Replies (text_eq event (codes "PreToolUse"))
        (replied-Replies (pre_tool_use encoding verify fault opening clock payload file))
        (if-cases Replies
          (text_eq event (codes "SessionStart") || text_eq event (codes "SubagentStart"))
          (start_at-Ends around encoding event (present (get (codes "session_id") payload)) clock
            file)
          (inl (none, refl)))
  handle_event-Replies event payload file = inl (none, refl)

  -- The Hook returns, or it raises what the choice of the data directory raised, whatever its payload
  -- and the contents of the session's file.
  pub handle_hook-returns :
      (payload : Fields) (file : Contents)
      → ((reply : Option Value) × ((handle_hook around encoding verify fault opening clock payload
              file).0
            ≡ ok reply))
        ⊎ ((e : Error) × ((handle_hook around encoding verify fault opening clock payload file).0
              ≡ err e)
            × (around.data_root ≡ err e))
  unfolding handle_hook
  handle_hook-returns payload file =
      handle_event-Replies (get (codes "hook_event_name") payload) payload file
