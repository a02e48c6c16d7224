-- ===== src/Diagnostics/Complete.antt =====
-- The status of a session in governance_diagnostics.py shows each of its tasks once, in order.
use mathlib.Core.List.{Perm}
use mathlib.Core.List.Perm
use subagent_governance.Base.{
  ℕ, Text, Dict, some, true, false, List, [], ◌∷◌, ◌≡◌, refl, arith, map, Bool-cases, Option-cases,
  inl, inr, ok,
}
use subagent_governance.Semantics.{Phase}
use subagent_governance.Contract.Canon.{Canon}
use subagent_governance.Ledger.{Task, Ledger, Prepared}
use subagent_governance.Retention.{text_le}
use subagent_governance.State.{prepared_issues, capability_issues}
use subagent_governance.State.Valid.{IsValidTask}
use subagent_governance.State.Ledgers.{All, IsValidLedger}
use subagent_governance.Diagnostics.{
  View, view_of, insert_by_id, sort_tasks, with_expiry, expiry_at, project_task, project_tasks,
  project_status,
}

text_le-total : (s t : Text) → text_le s t ≡ false → text_le t s ≡ true
unfolding text_le
text_le-total [] t h = absurd (cc)
text_le-total (c ∷ s) [] h = refl
text_le-total (c ∷ s) (d ∷ t) h = ground (arith, text_le-total s t)

-- Keys in order.
abbrev pub IsSorted : List Text → Type 0
IsSorted [] = Unit
IsSorted (k ∷ []) = Unit
IsSorted (k ∷ j ∷ ks) = (text_le k j ≡ true) × IsSorted (j ∷ ks)

abbrev key : Text × Task → Text
key (k, t) = k

insert_by_id-IsSorted :
    (k : Text) (t : Task) (d : Dict Task)
    → IsSorted (map key d)
    → IsSorted (map key (insert_by_id k t d))
unfolding insert_by_id
insert_by_id-IsSorted k t [] h = tt
insert_by_id-IsSorted k t ((j, u) ∷ []) h = elim (Bool-cases (text_le k j)) [
  | inl e ↦ rw e (e, tt)
  | inr e ↦ rw e (text_le-total k j e, tt)
]
insert_by_id-IsSorted k t ((j, u) ∷ (i, w) ∷ d) (a, h) =
    let rest = insert_by_id-IsSorted k t ((i, w) ∷ d) h in
    elim (Bool-cases (text_le k j)) [
      | inl e ↦ rw e (e, (a, h))
      | inr e ↦ elim (Bool-cases (text_le k i)) [
        | inl f ↦ rw (e, f) (text_le-total k j e, (f, h))
        | inr f ↦ rw (e, f) (a, rw f at rest)
      ]
    ]

sort_tasks-IsSorted : (d : Dict Task) → IsSorted (map key (sort_tasks d))
unfolding sort_tasks
sort_tasks-IsSorted [] = tt
sort_tasks-IsSorted ((k, t) ∷ d) = insert_by_id-IsSorted k t (sort_tasks d) (sort_tasks-IsSorted d)

insert_by_id-Perm : (k : Text) (t : Task) (d : Dict Task) → Perm (insert_by_id k t d) ((k, t) ∷ d)
unfolding insert_by_id
insert_by_id-Perm k t [] = Perm.refl _
insert_by_id-Perm k t ((j, u) ∷ d) = elim (Bool-cases (text_le k j)) [
  | inl e ↦ rw e (Perm.refl _)
  | inr e ↦
      rw e (Perm.trans (Perm.cons (j, u) (insert_by_id-Perm k t d)) (Perm.swap (k, t) (j, u) d))
]

sort_tasks-Perm : (d : Dict Task) → Perm (sort_tasks d) d
unfolding sort_tasks
sort_tasks-Perm [] = Perm.refl _
sort_tasks-Perm ((k, t) ∷ d) =
    Perm.trans (insert_by_id-Perm k t (sort_tasks d)) (Perm.cons (k, t) (sort_tasks-Perm d))

module _ {ℓ} (P : Text → Task → Type ℓ) where
  insert_by_id-All :
      (k : Text) (t : Task) (d : Dict Task) → P k t → All P d → All P (insert_by_id k t d)
  unfolding insert_by_id
  insert_by_id-All k t [] p a = (p, tt)
  insert_by_id-All k t ((j, u) ∷ d) p (q, a) = elim (Bool-cases (text_le k j)) [
    | inl e ↦ rw e (p, (q, a))
    | inr e ↦ rw e (q, insert_by_id-All k t d p a)
  ]

  sort_tasks-All : (d : Dict Task) → All P d → All P (sort_tasks d)
  unfolding sort_tasks
  sort_tasks-All [] a = tt
  sort_tasks-All ((k, t) ∷ d) (p, a) = insert_by_id-All k t (sort_tasks d) p (sort_tasks-All d a)

-- What a view and a task have in common.
abbrev pub seen : View → Text × (Text × Phase)
seen v = (v.task_id, (v.task_ref, v.phase))

abbrev pub entry : Text × Task → Text × (Text × Phase)
entry (k, t) = (k, (t.task_ref, t.phase))

module _ (canon : Canon) (now : ℕ) where
  -- A valid prepared task has its capability.
  valid_prepared :
      (k : Text) (t : Task)
      → IsValidTask canon k t
      → t.phase ≡ Phase.prepared
      → (p : Prepared) × (t.prepared ≡ some p)
  unfolding prepared_issues capability_issues
  valid_prepared k t v e = elim (Option-cases t.prepared) [
    | inl gone ↦ absurd (ground (arith, v.capability, e, gone))
    | inr there ↦ there
  ]

  shown_at :
      (p : Phase) (k : Text) (t : Task)
      → IsValidTask canon k t
      → t.phase ≡ p
      → (v : View) × (expiry_at now p t (view_of k t) ≡ ok v) × (seen v ≡ entry (k, t))
  unfolding expiry_at view_of with_expiry
  shown_at Phase.prepared k t v e =
      let (p, there) = valid_prepared k t v e in
      (with_expiry now p.expires_at (view_of k t), rw there refl, refl)
  shown_at Phase.claimed k t v e = (_, refl, refl)
  shown_at Phase.bound k t v e = (_, refl, refl)
  shown_at Phase.terminal k t v e = (_, refl, refl)
  shown_at Phase.closed k t v e = (_, refl, refl)
  shown_at Phase.reconcile k t v e = (_, refl, refl)

  shown_all :
      (d : Dict Task)
      → All (IsValidTask canon) d
      → (vs : List View) × (project_tasks now d ≡ ok vs) × (map seen vs ≡ map entry d)
  unfolding project_tasks project_task
  shown_all [] a = ([], refl, refl)
  shown_all ((k, t) ∷ d) (p, a) =
      let (v, e, same) = shown_at t.phase k t p refl in
      let (vs, es, sames) = shown_all d a in
      (v ∷ vs, ground (arith, e, es), ground (arith, same, sames))

  ids_of :
      (vs : List View) (d : Dict Task)
      → map seen vs ≡ map entry d
      → map (λ v. v.task_id) vs ≡ map key d
  ids_of [] [] h = refl
  ids_of [] (e ∷ d) h = absurd (cc)
  ids_of (v ∷ vs) [] h = absurd (cc)
  ids_of (v ∷ vs) ((k, t) ∷ d) h = ground (arith, h, ids_of vs d (ground (arith, h)))

  -- The status of a valid ledger is never refused: its views are in the order of their ids, and they
  -- show the tasks of the ledger with their references and phases, each as often as it is there.
  pub project_status-seen :
      (l : Ledger)
      → IsValidLedger canon l
      → (vs : List View) × (project_status now l.tasks ≡ ok vs)
        × IsSorted (map (λ v. v.task_id) vs)
        × Perm (map seen vs) (map entry l.tasks)
  unfolding project_status
  project_status-seen l v =
      let sorted = sort_tasks l.tasks in
      let (vs, e, same) = shown_all sorted (sort_tasks-All (IsValidTask canon) l.tasks v.each) in
      (
        vs,
        e,
        rw (ids_of vs sorted same) (sort_tasks-IsSorted l.tasks),
        rw same (Perm.map entry (sort_tasks-Perm l.tasks)),
      )
