-- ===== src/Steps/Observing.antt =====
-- What observations and notifications of governance_lifecycle.py do to a task, phase by phase, as steps.
use subagent_governance.Base.{
  ℕ, Text, ◌≡◌, refl, true, false, arith, Option, some, Bool, Bool-cases, Option-cases, inl, inr,
  ok,
}
use subagent_governance.Semantics.{
  Phase, Status, Source, ReconcileCode, UnknownCode, status_eq, is_platform_observation,
  is_terminal_status, is_persisted_platform, is_terminal_fact_status,
}
use subagent_governance.Ledger.{Task, is_status, terminal_status, platform_status}
use subagent_governance.Lifecycle.{Outcome, fact_at, facts_of}
use subagent_governance.Lifecycle.Observation.{
  observe_at, notify_at, observe_terminal, observe_bound, notify_terminal, conflict, note_unknown,
}
use subagent_governance.Steps.{Step, Walk, stay, next, one, is_live}

-- A word of a platform observation that is not `unknown` is one that the ledger may hold.
persisted_platform :
    (s : Status)
    → is_platform_observation s ≡ true
    → is_status (some s) Status.unknown ≡ false
    → is_persisted_platform s ≡ true
unfolding status_eq
persisted_platform s p q = ground arith

terminal_persisted : (s : Status) → is_terminal_status s ≡ true → is_persisted_platform s ≡ true
terminal_persisted s p = ground arith

terminal_fact_status : (s : Status) → is_terminal_status s ≡ true → is_terminal_fact_status s ≡ true
terminal_fact_status s p = ground arith

is_inactive : (o : Option Status) → is_status o Status.inactive ≡ true → o ≡ some Status.inactive
unfolding status_eq
is_inactive o h = ground arith

module _ (now : ℕ) (task_id task_ref target : Text) {t u : Task} {o : Outcome} where
  pub note_unknown-Walk :
      (code : UnknownCode)
      → is_live t.phase ≡ true
      → note_unknown code now task_id task_ref target t ≡ ok (u, o)
      → Walk now t u
  unfolding note_unknown
  note_unknown-Walk code live h = elim (Option-cases (fact_at code (facts_of t.unknown_facts))) [
    | inl e ↦ one (Step.note code live e (ground arith))
    | inr (n, e) ↦ stay (ground arith)
  ]

  conflict-Walk :
      t.phase ≡ Phase.terminal → conflict now task_id task_ref t ≡ ok (u, o) → Walk now t u
  unfolding conflict
  conflict-Walk p h =
      one (Step.set_aside ReconcileCode.terminal_status_conflict (rw p refl) (ground arith))

  observe_bound-Walk :
      (s : Status)
      → t.phase ≡ Phase.bound
      → is_persisted_platform s ≡ true
      → observe_bound s now task_id task_ref target t ≡ ok (u, o)
      → Walk now t u
  unfolding observe_bound
  observe_bound-Walk s p known h = elim (Bool-cases (is_terminal_status s)) [
    | inl e ↦
        next (Step.end Source.platform s p (terminal_fact_status s e) refl)
          (one (Step.observe s refl known (ground arith)))
    | inr e ↦ elim (Bool-cases (is_status (platform_status t) s)) [
      | inl again ↦ stay (ground arith)
      | inr new ↦ one (Step.observe s (ground arith) known (ground arith))
    ]
  ]

  observe_terminal-Walk :
      (s : Status)
      → t.phase ≡ Phase.terminal
      → observe_terminal s now task_id task_ref target t ≡ ok (u, o)
      → Walk now t u
  unfolding observe_terminal
  observe_terminal-Walk s p h = elim (Bool-cases (is_terminal_status s)) [
    | inr e ↦ absurd (ground arith)
    | inl e ↦ elim (Bool-cases (is_status (terminal_status t) Status.inactive)) [
      | inl open_end ↦
          next (Step.refine Source.platform s p (is_inactive _ open_end) e refl)
            (one (Step.observe s (ground arith) (terminal_persisted s e) (ground arith)))
      | inr concrete ↦ elim (Bool-cases (is_status (terminal_status t) s)) [
        | inr other ↦ conflict-Walk p (ground arith)
        | inl same ↦ elim (Bool-cases (is_status (platform_status t) s)) [
          | inl again ↦ stay (ground arith)
          | inr new ↦ one (Step.observe s (ground arith) (terminal_persisted s e) (ground arith))
        ]
      ]
    ]
  ]

  notify_terminal-Walk :
      (s : Status)
      → t.phase ≡ Phase.terminal
      → is_terminal_status s ≡ true
      → notify_terminal s now task_id task_ref target t ≡ ok (u, o)
      → Walk now t u
  unfolding notify_terminal
  notify_terminal-Walk s p e h = elim (Bool-cases (is_status (terminal_status t) Status.inactive)) [
    | inl open_end ↦
        one (Step.refine Source.notification s p (is_inactive _ open_end) e (ground arith))
    | inr concrete ↦ elim (Bool-cases (is_status (terminal_status t) s)) [
      | inl same ↦ stay (ground arith)
      | inr other ↦ conflict-Walk p (ground arith)
    ]
  ]

  pub observe_at-Walk :
      (s : Status) (p : Phase) (unsure : Bool)
      → t.phase ≡ p
      → is_status (some s) Status.unknown ≡ unsure
      → is_platform_observation s ≡ true
      → observe_at s now task_id task_ref target p unsure t ≡ ok (u, o)
      → Walk now t u
  unfolding observe_at
  observe_at-Walk s Phase.reconcile unsure p e a h = stay (ground arith)
  observe_at-Walk s Phase.bound true p e a h =
      note_unknown-Walk UnknownCode.platform_observation_unknown (rw p refl) h
  observe_at-Walk s Phase.bound false p e a h = observe_bound-Walk s p (persisted_platform s a e) h
  observe_at-Walk s Phase.terminal true p e a h =
      note_unknown-Walk UnknownCode.platform_observation_unknown (rw p refl) h
  observe_at-Walk s Phase.terminal false p e a h = observe_terminal-Walk s p h
  observe_at-Walk s Phase.prepared unsure p e a h = absurd (cc)
  observe_at-Walk s Phase.claimed unsure p e a h = absurd (cc)
  observe_at-Walk s Phase.closed unsure p e a h = absurd (cc)

  pub notify_at-Walk :
      (s : Status) (p : Phase)
      → t.phase ≡ p
      → is_terminal_status s ≡ true
      → notify_at s now task_id task_ref target p t ≡ ok (u, o)
      → Walk now t u
  unfolding notify_at
  notify_at-Walk s Phase.reconcile p a h = stay (ground arith)
  notify_at-Walk s Phase.terminal p a h = notify_terminal-Walk s p a h
  notify_at-Walk s Phase.bound p a h =
      one (Step.end Source.notification s p (terminal_fact_status s a) (ground arith))
  notify_at-Walk s Phase.prepared p a h = absurd (cc)
  notify_at-Walk s Phase.claimed p a h = absurd (cc)
  notify_at-Walk s Phase.closed p a h = absurd (cc)
