-- ===== src/State/Agreeing.antt =====
-- The tables of the keys of each phase in scripts/governance_state.py against the table of sound
-- tasks.
use subagent_governance.Base.{
  ◌≡◌, refl, arith, Option, none, some, Bool, true, false, [], is_some, append-eq-nil,
  nil-append-nil,
}
use subagent_governance.Semantics.{Phase}
use subagent_governance.Ledger.{Task}
use subagent_governance.State.Fields.{
  Field, requires, permits, has, field_issue, field_issues, all_fields,
}
use subagent_governance.State.Sound.{Rule, rule, Follows, HasKeys}

abbrev is_needed : Rule → Bool
is_needed Rule.needed = true
is_needed _ = false

abbrev is_permitted : Rule → Bool
is_permitted Rule.permitted = true
is_permitted _ = false

-- The two tables of the source say the same as the one table.
requires-rule : (p : Phase) (f : Field) → requires p f ≡ is_needed (rule p f)
unfolding requires rule
requires-rule p f = ground arith

permits-rule :
    (p : Phase) (f : Field) → requires p f ≡ false → permits p f ≡ is_permitted (rule p f)
unfolding requires permits rule
permits-rule p f h = ground (arith, h)

module _ {A : Type 0} (f : Field) where
  issue-Follows :
      (k : Rule) (q a : Bool) (o : Option A)
      → q ≡ is_needed k
      → (q ≡ false → a ≡ is_permitted k)
      → field_issue q a (is_some o) f ≡ []
      → Follows k o
  unfolding field_issue
  issue-Follows Rule.needed q a none e g h = ground (arith, e, h)
  issue-Follows Rule.needed q a (some x) e g h = tt
  issue-Follows Rule.permitted q a o e g h = tt
  issue-Follows Rule.barred q a none e g h = refl
  issue-Follows Rule.barred q a (some x) e g h = absurd (ground (arith, e, g e, h))

  Follows-issue :
      (k : Rule) (q a : Bool) (o : Option A)
      → q ≡ is_needed k
      → (q ≡ false → a ≡ is_permitted k)
      → Follows k o
      → field_issue q a (is_some o) f ≡ []
  unfolding field_issue
  Follows-issue Rule.needed q a none e g w = absurd w
  Follows-issue Rule.needed q a (some x) e g w = ground (arith, e)
  Follows-issue Rule.permitted q a none e g w = ground (arith, e)
  Follows-issue Rule.permitted q a (some x) e g w = ground (arith, e, g e)
  Follows-issue Rule.barred q a none e g w = ground (arith, e)
  Follows-issue Rule.barred q a (some x) e g w = absurd (cc)

  -- What the validator asks of one key.
  key_sound :
      (p : Phase) (o : Option A)
      → field_issue (requires p f) (permits p f) (is_some o) f ≡ []
      → Follows (rule p f) o
  key_sound p o h =
      issue-Follows (rule p f) (requires p f) (permits p f) o (requires-rule p f) (permits-rule p f)
        h

  key_complete :
      (p : Phase) (o : Option A)
      → Follows (rule p f) o
      → field_issue (requires p f) (permits p f) (is_some o) f ≡ []
  key_complete p o w =
      Follows-issue (rule p f) (requires p f) (permits p f) o (requires-rule p f) (permits-rule p f)
        w

module _ (t : Task) where
  pub field_issues-HasKeys : field_issues t all_fields ≡ [] → HasKeys t
  unfolding field_issues has
  field_issues-HasKeys h =
      let (prepared, h₁) = append-eq-nil _ _ h in
      let (claimed, h₂) = append-eq-nil _ _ h₁ in
      let (claimed_at, h₃) = append-eq-nil _ _ h₂ in
      let (target, h₄) = append-eq-nil _ _ h₃ in
      let (bound_at, h₅) = append-eq-nil _ _ h₄ in
      let (platform, h₆) = append-eq-nil _ _ h₅ in
      let (terminal, h₇) = append-eq-nil _ _ h₆ in
      let (interrupt, h₈) = append-eq-nil _ _ h₇ in
      let (unknown, h₉) = append-eq-nil _ _ h₈ in
      let (reconcile, h₁₀) = append-eq-nil _ _ h₉ in
      let (reason, h₁₁) = append-eq-nil _ _ h₁₀ in
      let (closed_at, h₁₂) = append-eq-nil _ _ h₁₁ in
      record {
        prepared = key_sound Field.prepared t.phase t.prepared prepared;
        claimed_tool_use_id =
            key_sound Field.claimed_tool_use_id t.phase t.claimed_tool_use_id claimed;
        claimed_at = key_sound Field.claimed_at t.phase t.claimed_at claimed_at;
        target = key_sound Field.target t.phase t.target target;
        bound_at = key_sound Field.bound_at t.phase t.bound_at bound_at;
        platform_observation =
            key_sound Field.platform_observation t.phase t.platform_observation platform;
        terminal_fact = key_sound Field.terminal_fact t.phase t.terminal_fact terminal;
        interrupt_fact = key_sound Field.interrupt_fact t.phase t.interrupt_fact interrupt;
        unknown_facts = key_sound Field.unknown_facts t.phase t.unknown_facts unknown;
        reconcile = key_sound Field.reconcile t.phase t.reconcile reconcile;
        close_reason = key_sound Field.close_reason t.phase t.close_reason reason;
        closed_at = key_sound Field.closed_at t.phase t.closed_at closed_at;
      }

  pub HasKeys-field_issues : HasKeys t → field_issues t all_fields ≡ []
  unfolding field_issues has
  HasKeys-field_issues k =
      nil-append-nil _ _ (key_complete Field.prepared t.phase t.prepared k.prepared) (
        nil-append-nil _ _
          (key_complete Field.claimed_tool_use_id t.phase t.claimed_tool_use_id
            k.claimed_tool_use_id)
          (nil-append-nil _ _ (key_complete Field.claimed_at t.phase t.claimed_at k.claimed_at) (
            nil-append-nil _ _ (key_complete Field.target t.phase t.target k.target) (
              nil-append-nil _ _ (key_complete Field.bound_at t.phase t.bound_at k.bound_at) (
                nil-append-nil _ _
                  (key_complete Field.platform_observation t.phase t.platform_observation
                    k.platform_observation)
                  (nil-append-nil _ _
                    (key_complete Field.terminal_fact t.phase t.terminal_fact k.terminal_fact)
                    (nil-append-nil _ _
                      (key_complete Field.interrupt_fact t.phase t.interrupt_fact k.interrupt_fact)
                      (nil-append-nil _ _
                        (key_complete Field.unknown_facts t.phase t.unknown_facts k.unknown_facts)
                        (nil-append-nil _ _
                          (key_complete Field.reconcile t.phase t.reconcile k.reconcile)
                          (nil-append-nil _ _
                            (key_complete Field.close_reason t.phase t.close_reason k.close_reason)
                            (nil-append-nil _ _
                              (key_complete Field.closed_at t.phase t.closed_at k.closed_at)
                              refl)))))))))))
