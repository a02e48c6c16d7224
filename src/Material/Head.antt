-- ===== src/Material/Head.antt =====
-- What git prints of HEAD, as check_head of _verify_git of scripts/governance_context.py requires.
use mathlib.Core.Path.{subst}
use subagent_governance.Base.{
  ℕ, Text, codes, strip, text_eq, text_eq_sound, List, [], ◌∷◌, ◌≡◌, ap, arith, Result, ok, Error,
  ◌∙◌, suc,
}
use subagent_governance.Material.Outside.{
  World, Process, call, remaining_time, run-eq-ok, require-eq-ok, require-same, remaining_time-suc,
}
use subagent_governance.Material.Git.{process_result, run_git, check_head}

printed_by : (p : Process) (s : Text) → process_result p ≡ ok s → p ≡ Process.finished s
unfolding process_result
printed_by (Process.finished t) s h = ground (arith, h)
printed_by Process.timed_out s h = absurd (cc)
printed_by Process.failed s h = absurd (cc)

module _ (world : World) where
  -- What git printed at a moment, one look at the clock behind the start and one before the end.
  pub record Printed (arguments : List Text) (n n' : ℕ) (output : Text) : Type 0 where
    pub moment : ℕ
    pub answer : world.git moment arguments ≡ Process.finished output
    pub behind : n ≡ suc moment
    pub ahead : moment ≡ suc n'

  pub run_git-Printed :
      (arguments : List Text) (n n' : ℕ) (output : Text)
      → run_git world arguments n ≡ (ok output, n')
      → Printed arguments n n' output
  unfolding run_git
  run_git-Printed arguments n n' output h =
      let (u, n₁, look, h₁) = run-eq-ok remaining_time _ n n' output h in
      let (printed, n₂, e, h₂) =
        run-eq-ok (call (λ m. process_result (world.git m arguments))) _ n₁ n' output h₁ in
      let (v, n₃, again, last) = run-eq-ok remaining_time _ n₂ n' output h₂ in
      let same : printed ≡ output = ground (arith, last) in
      let waited : n₁ ≡ n₂ = ground (arith, e) in
      let ended : n₃ ≡ n' = ground (arith, last) in
      record {
        moment = n₁;
        answer =
            printed_by (world.git n₁ arguments) output
              (ap {B = Result Text} (λ r. r.0) e ∙ ap ok same);
        behind = remaining_time-suc n n₁ u look;
        ahead = waited ∙ remaining_time-suc n₂ n₃ v again ∙ ap suc ended;
      }

  -- HEAD was the revision at a moment.
  pub record HasHead (revision : Text) (moment : ℕ) : Type 0 where
    pub printed : Text
    pub answer :
        world.git moment (codes "rev-parse" ∷ codes "--verify" ∷ codes "HEAD" ∷ [])
        ≡ Process.finished printed
    pub same : strip printed ≡ revision

  pub check_head-HasHead :
      (revision : Text) (n n' : ℕ) (u : Unit {0})
      → check_head world revision n ≡ (ok u, n')
      → HasHead revision (suc n') × (n ≡ suc (suc n'))
  unfolding check_head
  check_head-HasHead revision n n' u h =
      let arguments = codes "rev-parse" ∷ codes "--verify" ∷ codes "HEAD" ∷ [] in
      let (printed, n₁, e, h₁) = run-eq-ok (run_git world arguments) _ n n' u h in
      let found = run_git-Printed arguments n n₁ printed e in
      let test = text_eq (strip printed) revision in
      let ended = require-same test Error.context_conflict n₁ n' u h₁ in
      let moment = found.ahead ∙ ap suc ended in
      (
        record {
          printed = printed;
          answer =
              subst (λ m. world.git m arguments ≡ Process.finished printed) moment found.answer;
          same =
              text_eq_sound (strip printed) revision
                (require-eq-ok test Error.context_conflict n₁ n' u h₁);
        },
        found.behind ∙ ap suc moment,
      )
